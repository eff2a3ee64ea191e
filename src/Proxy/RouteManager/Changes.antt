-- ===== src/Proxy/RouteManager/Changes.antt =====
-- internal/proxy/route_manager.go: handleReload and applyRouteChanges.
use smaug.Prelude.{
  ℕ, ◌==◌, Str, contains, Bool, not, ◌&&◌, List, [], ◌∷◌, ◌++◌, map, none, some, if◌then◌else◌,
  keep, length,
}
use smaug.Prelude.Map.{Map, delete}
use smaug.Config.Types.{Route}
use smaug.Proxy.Reload.{RouteChanges, route_key, detect_changes}
use smaug.Proxy.RouteManager.Listeners.{RouteError, RouteManager, World}
use smaug.Proxy.RouteManager.{stop_route, start_route}

unfoldable pub delete_keys : List Str → Map ℕ → Map ℕ
delete_keys [] m = m
delete_keys (k ∷ ks) m = delete_keys ks (delete k m)

unfoldable pub cleanup_stopped_routes : List Str → RouteManager → RouteManager
unfolding delete_keys
cleanup_stopped_routes ks m = record m {
  route_map = delete_keys ks m.route_map;
  routes = keep (λ i. not (contains (route_key (m.listeners i).route) ks)) m.routes;
}

-- The loops of applyRouteChanges, with the keys that were stopped and the errors so far.
unfoldable pub stop_all :
    World
    → List Str
    → RouteManager
    → List Str
    → List RouteError
    → RouteManager × List Str × List RouteError
stop_all w [] m done errs = (m, done, errs)
stop_all w (k ∷ ks) m done errs =
    let (m', err) = stop_route w k m in
    stop_all w ks m' (elim err [ none ↦ done ++ k ∷ [] | some e ↦ done ])
      (elim err [ none ↦ errs | some e ↦ errs ++ e ∷ [] ])

unfoldable pub start_all :
    World → List Route → RouteManager → List RouteError → RouteManager × List RouteError
start_all w [] m errs = (m, errs)
start_all w (r ∷ rs) m errs =
    let (m', err) = start_route w r m in
    start_all w rs m' (elim err [ none ↦ errs | some e ↦ errs ++ e ∷ [] ])

-- The error that the reload returns carries those of its parts.
unfoldable pub apply_route_changes :
    World → RouteChanges → RouteManager → RouteManager × List RouteError
apply_route_changes w ch m =
    let (m1, done, errs) = stop_all w (ch.removed ++ map route_key ch.modified) m [] [] in
    start_all w (ch.added ++ ch.modified) (cleanup_stopped_routes done m1) errs

abbrev pub routes_of : RouteManager → List Route
routes_of m = map (λ i. (m.listeners i).route) m.routes

abbrev pub no_difference : RouteChanges → Bool
no_difference ch = length ch.added == 0 && length ch.removed == 0 && length ch.modified == 0

module _ (range : Map Route → Map Route) where
  unfoldable pub handle_reload : World → RouteManager → RouteManager × List RouteError
  handle_reload w m = elim m.config [
    | none ↦ (m, RouteError.reload_failed ∷ [])
    | some cfg ↦
        let ch = detect_changes range (routes_of m) cfg.routes in
        if no_difference ch then (m, []) else apply_route_changes w ch m
  ]
