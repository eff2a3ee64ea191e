-- ===== src/Proxy/RouteManager/Invariant.antt =====
-- What holds of the manager's list and map of routes before and after every reload.
use smaug.Prelude.{
  ℕ, ◌<◌, ◌==◌, Bool, true, false, not, List, [], ◌∷◌, ◌++◌, map, ◌≡◌, ◌⊎◌, inl, inr, refl, ap, ◌∙◌,
  keep, In, In-append_cases, arith, if◌then◌else◌,
}
use smaug.Prelude.Map.{Map, insert, lookup-insert}
use smaug.Config.Types.{Route}
use smaug.Proxy.Reload.{route_key, index_routes}
use smaug.Proxy.Reload.Index.{index}
use smaug.Proxy.RouteManager.Listeners.{RouteManager, RouteError, World, modify}
use smaug.Proxy.RouteManager.{
  start_route, drop_stopped, add_listener, create_listener, settle, is_stopped,
}
use smaug.Proxy.RouteManager.Changes.{start_all, routes_of}
use smaug.Proxy.RouteManager.Stopping.{view, IsAllocated}
use smaug.Proxy.RouteManager.Starting.{view-start_route, start_route-IsAllocated, started-route}
use smaug.Proxy.RouteManager.Reloading.{IsSynced}
use smaug.Proxy.RouteManager.Synced.{IsListed}

-- The map of routes is that of the list, both hold allocated listeners, and none that is listed has
-- been stopped.
pub record Inv (m : RouteManager) : Type 0 where
  pub synced : IsSynced m
  pub allocated : IsAllocated m
  pub listed : IsListed m
  pub live : (i : ℕ) → In i m.routes → is_stopped (m.listeners i).state ≡ false

keep-all : (p : ℕ → Bool) (xs : List ℕ) → ((x : ℕ) → In x xs → p x ≡ true) → keep p xs ≡ xs
unfolding keep
keep-all p [] h = refl
keep-all p (x ∷ xs) h =
    let rest = keep-all p xs (λ y i. h y (inr i)) in ground (arith, h x (inl refl))

index-append :
    (acc : Map Route) (rs : List Route) (r : Route)
    → index_routes acc (rs ++ r ∷ []) ≡ insert (route_key r) r (index_routes acc rs)
unfolding index_routes
index-append acc [] r = refl
index-append acc (s ∷ rs) r = index-append (insert (route_key s) s acc) rs r

-- A listener that is put at the end of a list of others.
routes_with :
    (m m' : RouteManager) (r : Route)
    → ((i : ℕ) → (m'.listeners i).route ≡ (if m.next == i then r else (m.listeners i).route))
    → (is : List ℕ) → ((i : ℕ) → In i is → i < m.next)
    → map (λ i. (m'.listeners i).route) (is ++ m.next ∷ [])
      ≡ map (λ i. (m.listeners i).route) is ++ r ∷ []
routes_with m m' r held [] l = ground (arith, held m.next)
routes_with m m' r held (i ∷ is) l =
    let rest = routes_with m m' r held is (λ j h. l j (inr h)) in
    ground (arith, held i, l i (inl refl))

module _ (w : World) (r : Route) (m : RouteManager) (v : Inv m) where
  abbrev started : RouteManager
  started = (start_route w r m).0

  started-routes : started.routes ≡ m.routes ++ m.next ∷ []
  unfolding start_route add_listener drop_stopped modify
  started-routes =
      ap (λ is. is ++ m.next ∷ [])
        (keep-all (λ i. not (is_stopped (m.listeners i).state)) m.routes
          (λ i h. ground (arith, v.live i h)))

  started-IsSynced : IsSynced started
  started-IsSynced k =
      let own = v.synced k in
      let all = routes_with m started r (started-route w r m v.allocated) m.routes v.listed in
      view-start_route w r m v.allocated k
      ∙ rw (started-routes, all, index-append [] (routes_of m) r)
          (rw
            (
              lookup-insert (route_key r) k r (view m),
              lookup-insert (route_key r) k r (index (routes_of m)),
              own,
            )
            refl)

  placed : (i : ℕ) → In i started.routes → In i m.routes ⊎ (i ≡ m.next)
  placed i h = elim (In-append_cases i m.routes (m.next ∷ []) (rw started-routes at h)) [
    | inl old ↦ inl old
    | inr (inl new) ↦ inr new
    | inr (inr nowhere) ↦ absurd nowhere
  ]

  started-live :
      (i : ℕ) → In i m.routes ⊎ (i ≡ m.next) → is_stopped (started.listeners i).state ≡ false
  unfolding start_route add_listener drop_stopped modify settle create_listener
  started-live i (inl old) = ground (arith, v.live i old, v.listed i old)
  started-live i (inr new) = ground arith

  started-listed : (i : ℕ) → In i m.routes ⊎ (i ≡ m.next) → i < started.next
  unfolding start_route add_listener drop_stopped modify settle create_listener
  started-listed i (inl old) = ground (arith, v.listed i old)
  started-listed i (inr new) = ground arith

  start_route-Inv : Inv started
  start_route-Inv = record {
    synced = started-IsSynced;
    allocated = start_route-IsAllocated w r m v.allocated;
    listed = λ i h. started-listed i (placed i h);
    live = λ i h. started-live i (placed i h);
  }

pub start_all-Inv :
    (w : World) (rs : List Route) (m : RouteManager) (errs : List RouteError)
    → Inv m
    → Inv (start_all w rs m errs).0
unfolding start_all
start_all-Inv w [] m errs v = v
start_all-Inv w (r ∷ rs) m errs v =
    start_all-Inv w rs (start_route w r m).0 _ (start_route-Inv w r m v)
