-- ===== src/Proxy/RouteManager/Marked.antt =====
-- The loop over the routes to stop (internal/proxy/route_manager.go) notes the key of every listener
-- that it has stopped.
use smaug.Prelude.{
  ℕ, ◌==◌, Str, true, false, Bool-cases, List, [], ◌∷◌, ◌++◌, Option, none, some, Option-cases, ◌≡◌,
  inl, inr, refl, sym, ap, ◌∙◌, In, In-append_left, In-append_right, arith,
}
use smaug.Prelude.Map.{lookup, map_option, lookup-map_values}
use smaug.Proxy.Reload.{route_key}
use smaug.Proxy.Reload.Index.{index-IsIndex}
use smaug.Proxy.RouteManager.Listeners.{
  ListenerState, RouteManager, RouteError, World, modify, set_state,
}
use smaug.Proxy.RouteManager.{stop_route, is_stopped, shut_listener}
use smaug.Proxy.RouteManager.Changes.{stop_all, routes_of}
use smaug.Proxy.RouteManager.Stopping.{SameRoutes, stop_route-SameRoutes}
use smaug.Proxy.RouteManager.Reloading.{IsSynced}

-- Each key of the map of routes is that of its listener's route.
abbrev pub Keyed : RouteManager → Type 0
Keyed m = (k : Str) (i : ℕ) → lookup k m.route_map ≡ some i → route_key (m.listeners i).route ≡ k

-- A listener that has been stopped has its key among those that are done.
abbrev pub Marked : RouteManager → List Str → Type 0
Marked m done =
    (i : ℕ)
    → is_stopped (m.listeners i).state ≡ true
    → In i m.routes
    → In (route_key (m.listeners i).route) done

pub synced-Keyed : (m : RouteManager) → IsSynced m → Keyed m
synced-Keyed m s k i h = (index-IsIndex (routes_of m)).keyed k (m.listeners i).route (
    sym (s k)
    ∙ lookup-map_values (λ j. (m.listeners j).route) k m.route_map
    ∙ ap (map_option (λ j. (m.listeners j).route)) h)

SameRoutes-Keyed : {m n : RouteManager} → SameRoutes m n → Keyed m → Keyed n
SameRoutes-Keyed s keyed k i h =
    ap route_key (s.route i) ∙ keyed k i (sym (ap (lookup k) s.route_map) ∙ h)

abbrev done_after : Str → List Str → Option RouteError → List Str
done_after k done err = elim err [ none ↦ done ++ k ∷ [] | some e ↦ done ]

module _ (w : World) where
  module _ (k : Str) (m : RouteManager) (done : List Str) (keyed : Keyed m)
      (marked : Marked m done) where
    stop_route-missing :
        lookup k m.route_map ≡ none → stop_route w k m ≡ (m, some RouteError.route_not_found)
    unfolding stop_route
    stop_route-missing h = simp (stop_route, h)

    stop_route-down :
        (j : ℕ)
        → lookup k m.route_map ≡ some j
        → w.shuts_down j ≡ true
        → stop_route w k m ≡ (modify j shut_listener m, none)
    unfolding stop_route
    stop_route-down j found down = simp (stop_route, found, down)

    stop_route-fails :
        (j : ℕ)
        → lookup k m.route_map ≡ some j
        → w.shuts_down j ≡ false
        → stop_route w k m
          ≡ (modify j (set_state ListenerState.stopping) m, some RouteError.shutdown_failed)
    unfolding stop_route
    stop_route-fails j found stuck = simp (stop_route, found, stuck)

    shut-Marked :
        (j : ℕ) → lookup k m.route_map ≡ some j → Marked (modify j shut_listener m) (done ++ k ∷ [])
    unfolding modify shut_listener
    shut-Marked j found i h listed = elim (Bool-cases (j == i)) [
      | inl same ↦
          let own : route_key ((modify j shut_listener m).listeners i).route ≡ k =
            ground (arith, keyed k j found) in
          rw own (In-append_right k done (k ∷ []) (inl refl))
      | inr other ↦ rw other (
          In-append_left (route_key (m.listeners i).route) done (k ∷ [])
            (marked i (rw other at h) listed))
    ]

    stuck-Marked : (j : ℕ) → Marked (modify j (set_state ListenerState.stopping) m) done
    unfolding modify set_state
    stuck-Marked j i h listed = elim (Bool-cases (j == i)) [
      | inl same ↦ absurd (ground arith)
      | inr other ↦ rw other (marked i (rw other at h) listed)
    ]

    stop_route-Marked : Marked (stop_route w k m).0 (done_after k done (stop_route w k m).1)
    stop_route-Marked = elim (Option-cases (lookup k m.route_map)) [
      | inl missing ↦ let out = stop_route-missing missing in rw out marked
      | inr (j, found) ↦ elim (Bool-cases (w.shuts_down j)) [
        | inl down ↦ let out = stop_route-down j found down in rw out (shut-Marked j found)
        | inr stuck ↦ let out = stop_route-fails j found stuck in rw out (stuck-Marked j)
      ]
    ]

  pub stop_all-Marked :
      (ks : List Str) (m : RouteManager) (done : List Str) (errs : List RouteError)
      → Keyed m
      → Marked m done
      → let stopped = stop_all w ks m done errs in Marked stopped.0 stopped.1
  unfolding stop_all
  stop_all-Marked [] m done errs keyed marked = marked
  stop_all-Marked (k ∷ ks) m done errs keyed marked =
      stop_all-Marked ks (stop_route w k m).0 (done_after k done (stop_route w k m).1) _
        (SameRoutes-Keyed (stop_route-SameRoutes w k m) keyed)
        (stop_route-Marked k m done keyed marked)
