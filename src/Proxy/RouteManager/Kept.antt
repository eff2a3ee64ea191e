-- ===== src/Proxy/RouteManager/Kept.antt =====
-- Every reload keeps the invariant of the manager's routes, whatever fails in it.
use smaug.Prelude.{
  ℕ, Str, contains, contains_iff, Bool-cases, not, List, [], ◌∷◌, ◌++◌, map, Option-cases, ◌≡◌, ◌⊎◌,
  inl, inr, refl, sym, ap, ◌∙◌, keep, In-keep, arith,
}
use smaug.Prelude.Map.{Map, lookup}
use smaug.Config.Types.{Route}
use smaug.Proxy.Reload.{RouteChanges, route_key, detect_changes}
use smaug.Proxy.Reload.Index.{index}
use smaug.Proxy.RouteManager.Listeners.{RouteManager, World}
use smaug.Proxy.RouteManager.{is_stopped}
use smaug.Proxy.RouteManager.Changes.{
  stop_all, routes_of, cleanup_stopped_routes, apply_route_changes, handle_reload, no_difference,
}
use smaug.Proxy.RouteManager.Stopping.{
  view, IsAllocated, SameRoutes, stop_all-SameRoutes, SameRoutes-IsAllocated, SameRoutes-view,
  cleanup-IsAllocated, view-cleanup,
}
use smaug.Proxy.RouteManager.Reloading.{IsSynced}
use smaug.Proxy.RouteManager.Synced.{IsListed}
use smaug.Proxy.RouteManager.Invariant.{Inv, start_all-Inv}
use smaug.Proxy.RouteManager.Removing.{index-keep, delete_all-lookup, map-keep}
use smaug.Proxy.RouteManager.Marked.{Marked, synced-Keyed, stop_all-Marked}

map_same : (f g : ℕ → Route) (is : List ℕ) → ((i : ℕ) → f i ≡ g i) → map f is ≡ map g is
map_same f g [] h = refl
map_same f g (i ∷ is) h = ground (arith, h i, map_same f g is h)

SameRoutes-routes_of : {m n : RouteManager} → SameRoutes m n → routes_of n ≡ routes_of m
SameRoutes-routes_of {m} {n} s =
    ap (map (λ i. (n.listeners i).route)) s.routes
    ∙ map_same (λ i. (n.listeners i).route) (λ i. (m.listeners i).route) m.routes s.route

pub SameRoutes-IsSynced : {m n : RouteManager} → SameRoutes m n → IsSynced m → IsSynced n
SameRoutes-IsSynced {m} {n} s synced k =
    SameRoutes-view k s ∙ synced k ∙ ap (λ rs. lookup k (index rs)) (sym (SameRoutes-routes_of s))

module _ (ks : List Str) (m : RouteManager) where
  cleanup-routes_of :
      routes_of (cleanup_stopped_routes ks m)
      ≡ keep (λ r. not (contains (route_key r) ks)) (routes_of m)
  unfolding cleanup_stopped_routes
  cleanup-routes_of =
      map-keep (λ i. (m.listeners i).route) (λ r. not (contains (route_key r) ks)) m.routes

  cleanup-IsSynced : IsSynced m → IsSynced (cleanup_stopped_routes ks m)
  cleanup-IsSynced synced k =
      let own = synced k in
      let left = index-keep ks k (routes_of m) [] [] (unfold lookup in ground arith) in
      rw (view-cleanup ks m, delete_all-lookup ks k (view m), own, cleanup-routes_of) (sym left)

  cleanup-Inv :
      IsSynced m → IsAllocated m → IsListed m → Marked m ks → Inv (cleanup_stopped_routes ks m)
  unfolding cleanup_stopped_routes
  cleanup-Inv synced allocated listed marked = record {
    synced = cleanup-IsSynced synced;
    allocated = cleanup-IsAllocated ks m allocated;
    listed = λ i h.
        listed i
          (In-keep (λ j. not (contains (route_key (m.listeners j).route) ks)) i m.routes h).0;
    live = λ i h.
        let (old, kept) =
          In-keep (λ j. not (contains (route_key (m.listeners j).route) ks)) i m.routes h in
        elim (Bool-cases (is_stopped (m.listeners i).state)) [
          | inl stopped ↦
              let gone =
                (contains_iff (route_key (m.listeners i).route) ks).1 (marked i stopped old) in
              absurd (ground arith)
          | inr live ↦ live
        ];
  }

apply_route_changes-Inv :
    (w : World) (ch : RouteChanges) (m : RouteManager) → Inv m → Inv (apply_route_changes w ch m).0
unfolding apply_route_changes
apply_route_changes-Inv w ch m v =
    let ks = ch.removed ++ map route_key ch.modified in
    let same = stop_all-SameRoutes w ks m [] [] in
    let stopped = stop_all w ks m [] [] in
    start_all-Inv w (ch.added ++ ch.modified) (cleanup_stopped_routes stopped.1 stopped.0) stopped.2
      (cleanup-Inv stopped.1 stopped.0 (SameRoutes-IsSynced same v.synced)
        (SameRoutes-IsAllocated same v.allocated)
        (λ i h. rw same.next (v.listed i (rw same.routes at h)))
        (stop_all-Marked w ks m [] [] (synced-Keyed m v.synced)
          (λ i h listed. absurd (ground (arith, v.live i listed)))))

-- A reload leaves the manager as it is or applies the difference to some configuration.
handle_reload-cases :
    (range : Map Route → Map Route) (w : World) (m : RouteManager)
    → ((handle_reload range w m).0 ≡ m)
      ⊎ ((ch : RouteChanges) × ((handle_reload range w m).0 ≡ (apply_route_changes w ch m).0))
unfolding handle_reload
handle_reload-cases range w m = elim (Option-cases m.config) [
  | inl unset ↦ inl (simp (handle_reload, unset))
  | inr (cfg, set_up) ↦
      let ch = detect_changes range (routes_of m) cfg.routes in
      elim (Bool-cases (no_difference ch)) [
        | inl same ↦ inl (simp (handle_reload, set_up, same))
        | inr changed ↦ inr (ch, simp (handle_reload, set_up, changed))
      ]
]

-- A reload keeps the invariant: the map of routes stays that of the list, and no listener that has
-- been stopped stays listed, whichever routes fail to stop or to start.
pub handle_reload-Inv :
    (range : Map Route → Map Route) (w : World) (m : RouteManager)
    → Inv m
    → Inv (handle_reload range w m).0
handle_reload-Inv range w m v = elim (handle_reload-cases range w m) [
  | inl same ↦ rw same v
  | inr (ch, applied) ↦ rw applied (apply_route_changes-Inv w ch m v)
]
