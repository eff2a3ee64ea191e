-- ===== src/Proxy/RouteManager/Stopping.antt =====
-- Stopping routes: what it leaves alone, which stops succeed, and what the map of routes then holds.
use mathlib.Core.List.{append_assoc, append-nil}
use smaug.Prelude.{
  ℕ, ◌<◌, Str, Bool, true, false, Bool-cases, List, [], ◌∷◌, ◌++◌, none, some, Option-cases, ◌≡◌,
  ◌≢◌, inl, inr, refl, sym, ap, ◌∙◌, keep, In, arith,
}
use smaug.Prelude.Map.{
  Map, lookup, delete, map_values, lookup-map_values, map_values-delete, lookup-delete,
}
use smaug.Config.Types.{Route}
use smaug.Proxy.Reload.Patch.{delete_all}
use smaug.Proxy.RouteManager.Listeners.{RouteManager, RouteError, World, modify, set_state}
use smaug.Proxy.RouteManager.{stop_route, shut_listener}
use smaug.Proxy.RouteManager.Changes.{stop_all, delete_keys, cleanup_stopped_routes}

-- The route that each key of the map of routes stands for.
abbrev pub view : RouteManager → Map Route
view m = map_values (λ i. (m.listeners i).route) m.route_map

-- Every number in the map of routes has been allocated.
abbrev pub IsAllocated : RouteManager → Type 0
IsAllocated m = (k : Str) (i : ℕ) → lookup k m.route_map ≡ some i → i < m.next

-- Two states that differ in the lifecycle of their listeners alone.
pub record SameRoutes (m n : RouteManager) : Type 0 where
  pub routes : n.routes ≡ m.routes
  pub route_map : n.route_map ≡ m.route_map
  pub next : n.next ≡ m.next
  pub route : (i : ℕ) → (n.listeners i).route ≡ (m.listeners i).route

SameRoutes-refl : (m : RouteManager) → SameRoutes m m
SameRoutes-refl m = record { routes = refl; route_map = refl; next = refl; route = λ i. refl }

SameRoutes-trans : {m n o : RouteManager} → SameRoutes m n → SameRoutes n o → SameRoutes m o
SameRoutes-trans a b = record {
  routes = b.routes ∙ a.routes;
  route_map = b.route_map ∙ a.route_map;
  next = b.next ∙ a.next;
  route = λ i. b.route i ∙ a.route i;
}

-- A stop that succeeds: the key has a listener, and its server shuts down.
abbrev pub is_stoppable : World → RouteManager → Str → Bool
is_stoppable w m k = elim (lookup k m.route_map) [ none ↦ false | some i ↦ w.shuts_down i ]

pub append_one_ne_nil : (errs : List RouteError) (e : RouteError) → errs ++ e ∷ [] ≢ []
append_one_ne_nil [] e h = ground arith
append_one_ne_nil (x ∷ errs) e h = ground arith

module _ (w : World) where
  pub stop_route-SameRoutes : (k : Str) (m : RouteManager) → SameRoutes m (stop_route w k m).0
  unfolding stop_route modify shut_listener set_state
  stop_route-SameRoutes k m = record {
    routes = ground arith;
    route_map = ground arith;
    next = ground arith;
    route = λ j. ground arith;
  }

  stop_route-stoppable :
      (k : Str) (m : RouteManager) → is_stoppable w m k ≡ true → (stop_route w k m).1 ≡ none
  unfolding stop_route
  stop_route-stoppable k m h = ground arith

  stop_route-stuck :
      (k : Str) (m : RouteManager)
      → is_stoppable w m k ≡ false
      → (e : RouteError) × ((stop_route w k m).1 ≡ some e)
  unfolding stop_route
  stop_route-stuck k m h = elim (Option-cases (lookup k m.route_map)) [
    | inl n ↦ (RouteError.route_not_found, ground arith)
    | inr (i, f) ↦ (RouteError.shutdown_failed, ground arith)
  ]

  pub stop_all-SameRoutes :
      (ks : List Str) (m : RouteManager) (done : List Str) (errs : List RouteError)
      → SameRoutes m (stop_all w ks m done errs).0
  unfolding stop_all
  stop_all-SameRoutes [] m done errs = SameRoutes-refl m
  stop_all-SameRoutes (k ∷ ks) m done errs =
      SameRoutes-trans (stop_route-SameRoutes k m) (stop_all-SameRoutes ks (stop_route w k m).0 _ _)

  stoppable_same : (m n : RouteManager) → SameRoutes m n → is_stoppable w n ≡ is_stoppable w m
  stoppable_same m n s =
      ap {B = Str → Bool}
        (λ (r : Map ℕ) (k : Str). elim (lookup k r) [ none ↦ false | some i ↦ w.shuts_down i ])
        s.route_map

  -- The keys that are stopped are those that can be.
  pub stop_all-done :
      (ks : List Str) (m : RouteManager) (done : List Str) (errs : List RouteError)
      → (stop_all w ks m done errs).1 ≡ done ++ keep (is_stoppable w m) ks
  unfolding stop_all keep
  stop_all-done [] m done errs = sym (append-nil done)
  stop_all-done (k ∷ ks) m done errs =
      let m' = (stop_route w k m).0 in
      let same = stoppable_same m m' (stop_route-SameRoutes k m) in
      elim (Bool-cases (is_stoppable w m k)) [
        | inl can ↦
            let ok = stop_route-stoppable k m can in
            rw (can, stop_all, ok)
              (stop_all-done ks m' (done ++ k ∷ []) errs
                ∙ rw same (append_assoc done (k ∷ []) (keep (is_stoppable w m) ks)))
        | inr cannot ↦
            let (e, stuck) = stop_route-stuck k m cannot in
            rw (cannot, stop_all, stuck) (stop_all-done ks m' done (errs ++ e ∷ []) ∙ rw same refl)
      ]

  -- With no error in the end, every key could be stopped.
  pub stop_all-clean :
      (ks : List Str) (m : RouteManager) (done : List Str) (errs : List RouteError)
      → (stop_all w ks m done errs).2 ≡ []
      → (errs ≡ []) × ((k : Str) → In k ks → is_stoppable w m k ≡ true)
  unfolding stop_all
  stop_all-clean [] m done errs h = (h, λ k i. absurd i)
  stop_all-clean (k ∷ ks) m done errs h =
      let m' = (stop_route w k m).0 in
      let same = stoppable_same m m' (stop_route-SameRoutes k m) in
      let (clean, rest) = stop_all-clean ks m' _ _ h in
      elim (Bool-cases (is_stoppable w m k)) [
        | inl can ↦
            let ok = stop_route-stoppable k m can in
            (ground arith, λ j i. elim i [ inl e ↦ rw e can | inr i ↦ rw (← same) (rest j i) ])
        | inr cannot ↦
            let (e, stuck) = stop_route-stuck k m cannot in
            absurd (append_one_ne_nil errs e (ground arith))
      ]

delete_keys-values :
    (f : ℕ → Route) (ks : List Str) (m : Map ℕ)
    → map_values f (delete_keys ks m) ≡ delete_all ks (map_values f m)
unfolding delete_keys delete_all
delete_keys-values f [] m = refl
delete_keys-values f (k ∷ ks) m =
    delete_keys-values f ks (delete k m) ∙ ap (delete_all ks) (map_values-delete f k m)

-- Cleaning up takes the stopped keys out of the map of routes.
pub view-cleanup :
    (ks : List Str) (m : RouteManager) → view (cleanup_stopped_routes ks m) ≡ delete_all ks (view m)
unfolding cleanup_stopped_routes
view-cleanup ks m = delete_keys-values (λ i. (m.listeners i).route) ks m.route_map

delete_keys-lookup :
    (ks : List Str) (m : Map ℕ) (k : Str) (i : ℕ)
    → lookup k (delete_keys ks m) ≡ some i
    → lookup k m ≡ some i
unfolding delete_keys
delete_keys-lookup [] m k i h = h
delete_keys-lookup (j ∷ ks) m k i h =
    ground (arith, delete_keys-lookup ks (delete j m) k i h, lookup-delete j k m)

pub cleanup-IsAllocated :
    (ks : List Str) (m : RouteManager) → IsAllocated m → IsAllocated (cleanup_stopped_routes ks m)
unfolding cleanup_stopped_routes
cleanup-IsAllocated ks m a k i h = a k i (delete_keys-lookup ks m.route_map k i h)

pub SameRoutes-IsAllocated : {m n : RouteManager} → SameRoutes m n → IsAllocated m → IsAllocated n
SameRoutes-IsAllocated s a k i h = rw s.next (a k i (rw s.route_map at h))

pub SameRoutes-view :
    {m n : RouteManager} (k : Str) → SameRoutes m n → lookup k (view n) ≡ lookup k (view m)
SameRoutes-view {m} {n} k s =
    let route = s.route in
    rw
      (
        s.route_map,
        lookup-map_values (λ i. (n.listeners i).route) k m.route_map,
        lookup-map_values (λ i. (m.listeners i).route) k m.route_map,
      )
      (elim (Option-cases (lookup k m.route_map)) [
        | inl e ↦ rw e
        | inr (i, e) ↦ rw e (ap some (route i))
      ])
