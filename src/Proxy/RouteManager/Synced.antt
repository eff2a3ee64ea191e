-- ===== src/Proxy/RouteManager/Synced.antt =====
-- A fresh manager that is started: its map of routes and its list of routes hold the configuration.
use mathlib.Core.List.{append_assoc, append-nil}
use smaug.Prelude.{
  ℕ, ◌<◌, ◌==◌, Str, true, false, List, [], ◌∷◌, ◌++◌, map, some, ◌≡◌, inl, inr, refl, sym, ap, ◌∙◌,
  arith, In, In-append_cases, if◌then◌else◌,
}
use smaug.Prelude.Map.{Map, lookup, insert, lookup-insert, map_values}
use smaug.Config.Types.{Config, Route}
use smaug.Proxy.Reload.{route_key, index_routes}
use smaug.Proxy.Reload.Index.{index}
use smaug.Proxy.Reload.Patch.{insert_all}
use smaug.Proxy.RouteManager.Listeners.{RouteManager}
use smaug.Proxy.RouteManager.{create_listener, add_listener, add_listeners, start}
use smaug.Proxy.RouteManager.Changes.{routes_of}
use smaug.Proxy.RouteManager.Stopping.{view, IsAllocated}
use smaug.Proxy.RouteManager.Starting.{view-added, insert_all-step}
use smaug.Proxy.RouteManager.Reloading.{IsSynced}

-- Every number in the list of routes has been allocated.
abbrev pub IsListed : RouteManager → Type 0
IsListed m = (i : ℕ) → In i m.routes → i < m.next

module _ (r : Route) (m : RouteManager) where
  add_listener-IsAllocated : IsAllocated m → IsAllocated (add_listener r m)
  unfolding add_listener
  add_listener-IsAllocated a k i h =
      ground (arith, lookup-insert (route_key r) k m.next m.route_map, a k i)

  pub add_listener-IsListed : IsListed m → IsListed (add_listener r m)
  unfolding add_listener
  add_listener-IsListed l i h = elim (In-append_cases i m.routes (m.next ∷ []) h) [
    | inl old ↦ ground (arith, l i old)
    | inr (inl e) ↦ ground arith
    | inr (inr nowhere) ↦ absurd nowhere
  ]

  added-route :
      (i : ℕ)
      → ((add_listener r m).listeners i).route ≡ (if m.next == i then r else (m.listeners i).route)
  unfolding add_listener create_listener
  added-route i = ground arith

  view-add_listener :
      IsAllocated m
      → (k : Str) → lookup k (view (add_listener r m)) ≡ lookup k (insert (route_key r) r (view m))
  unfolding add_listener
  view-add_listener a k = view-added r m a (add_listener r m) refl added-route k

  routes_added :
      (is : List ℕ)
      → ((i : ℕ) → In i is → i < m.next)
      → map (λ i. ((add_listener r m).listeners i).route) (is ++ m.next ∷ [])
        ≡ map (λ i. (m.listeners i).route) is ++ r ∷ []
  routes_added [] l = ground (arith, added-route m.next)
  routes_added (i ∷ is) l =
      let rest = routes_added is (λ j h. l j (inr h)) in
      ground (arith, added-route i, l i (inl refl))

  routes_of-add_listener : IsListed m → routes_of (add_listener r m) ≡ routes_of m ++ r ∷ []
  unfolding add_listener
  routes_of-add_listener l = routes_added m.routes l

add_listeners-IsAllocated :
    (rs : List Route) (m : RouteManager) → IsAllocated m → IsAllocated (add_listeners rs m)
unfolding add_listeners
add_listeners-IsAllocated [] m a = a
add_listeners-IsAllocated (r ∷ rs) m a =
    add_listeners-IsAllocated rs (add_listener r m) (add_listener-IsAllocated r m a)

view-add_listeners :
    (rs : List Route) (m : RouteManager)
    → IsAllocated m
    → (k : Str) → lookup k (view (add_listeners rs m)) ≡ lookup k (insert_all rs (view m))
unfolding add_listeners insert_all
view-add_listeners [] m a k = refl
view-add_listeners (r ∷ rs) m a k =
    view-add_listeners rs (add_listener r m) (add_listener-IsAllocated r m a) k
    ∙ insert_all-step r rs (view (add_listener r m)) (view m) (view-add_listener r m a) k

routes_of-add_listeners :
    (rs : List Route) (m : RouteManager)
    → IsListed m
    → routes_of (add_listeners rs m) ≡ routes_of m ++ rs
unfolding add_listeners
routes_of-add_listeners [] m l = sym (append-nil (routes_of m))
routes_of-add_listeners (r ∷ rs) m l =
    routes_of-add_listeners rs (add_listener r m) (add_listener-IsListed r m l)
    ∙ ap (λ xs. xs ++ rs) (routes_of-add_listener r m l)
    ∙ append_assoc (routes_of m) (r ∷ []) rs

insert_all-index : (rs : List Route) (m : Map Route) → insert_all rs m ≡ index_routes m rs
unfolding insert_all index_routes
insert_all-index [] m = refl
insert_all-index (r ∷ rs) m = insert_all-index rs (insert (route_key r) r m)

module _ (m : RouteManager) (cfg : Config) (c : m.config ≡ some cfg) (idle : m.running ≡ false)
    (fresh : m.route_map ≡ []) where
  abbrev emptied : RouteManager
  emptied = record m { running = true; routes = [] }

  pub started : (start m).0 ≡ add_listeners cfg.routes emptied
  unfolding start
  started = simp (start, idle, c)

  emptied-IsAllocated : IsAllocated emptied
  emptied-IsAllocated k i h = unfold lookup in ground arith

  emptied-view : view emptied ≡ []
  unfolding map_values
  emptied-view = rw fresh refl

  -- A manager that has no routes yet and is started with a configuration holds, under each key,
  -- the route that the configuration gives for it, and the invariants of a reload.
  pub start-IsSynced :
      IsSynced (start m).0 × IsAllocated (start m).0 × (routes_of (start m).0 ≡ cfg.routes)
  start-IsSynced =
      let listed : routes_of (add_listeners cfg.routes emptied) ≡ cfg.routes =
        routes_of-add_listeners cfg.routes emptied (λ i h. absurd h) in
      let holds : (k : Str)
          → lookup k (view (add_listeners cfg.routes emptied)) ≡ lookup k (index cfg.routes) =
        λ k.
          view-add_listeners cfg.routes emptied emptied-IsAllocated k
          ∙ ap (lookup k)
              (ap (insert_all cfg.routes) emptied-view ∙ insert_all-index cfg.routes []) in
      rw (started, listed)
        (holds, add_listeners-IsAllocated cfg.routes emptied emptied-IsAllocated, refl)
