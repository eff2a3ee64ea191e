-- ===== src/Proxy/RouteManager/Starting.antt =====
-- Starting routes: what the map of routes then holds.
use smaug.Prelude.{
  ℕ, ◌==◌, Str, str_eq, Bool-cases, List, [], ◌∷◌, some, Option-cases, ◌≡◌, inl, inr, refl, ap, ◌∙◌,
  arith, if◌then◌else◌,
}
use smaug.Prelude.Map.{Map, lookup, insert, map_option, lookup-map_values, lookup-insert}
use smaug.Config.Types.{Route}
use smaug.Proxy.Reload.{route_key}
use smaug.Proxy.Reload.Patch.{insert_all}
use smaug.Proxy.RouteManager.Listeners.{RouteManager, RouteError, World, modify}
use smaug.Proxy.RouteManager.{create_listener, add_listener, settle, drop_stopped, start_route}
use smaug.Proxy.RouteManager.Changes.{start_all}
use smaug.Proxy.RouteManager.Stopping.{view, IsAllocated, append_one_ne_nil}

module _ (k : Str) (m : RouteManager) where
  -- A look-up in the view, through the number of the listener.
  view-lookup : lookup k (view m) ≡ map_option (λ i. (m.listeners i).route) (lookup k m.route_map)
  view-lookup = lookup-map_values (λ i. (m.listeners i).route) k m.route_map

-- What a state views that has the route `r` in a new listener under its key.
module _ (r : Route) (m : RouteManager) (a : IsAllocated m) (m' : RouteManager)
    (mapped : m'.route_map ≡ insert (route_key r) m.next m.route_map)
    (held : (i : ℕ)
      → (m'.listeners i).route ≡ (if m.next == i then r else (m.listeners i).route)) where
  pub view-added : (k : Str) → lookup k (view m') ≡ lookup k (insert (route_key r) r (view m))
  view-added k =
      let before = view-lookup k m in
      let found : lookup k m'.route_map
          ≡ (if str_eq (route_key r) k then some m.next else lookup k m.route_map) =
        ap (lookup k) mapped ∙ lookup-insert (route_key r) k m.next m.route_map in
      rw (view-lookup k m', found, lookup-insert (route_key r) k r (view m), before)
        (elim (Bool-cases (str_eq (route_key r) k)) [
          | inl hit ↦ rw hit (ground (arith, held m.next))
          | inr miss ↦ rw miss (elim (Option-cases (lookup k m.route_map)) [
            | inl e ↦ rw e
            | inr (i, e) ↦ rw e (ground (arith, held i, a k i e))
          ])
        ])

module _ (w : World) (r : Route) (m : RouteManager) (a : IsAllocated m) where
  pub start_route-IsAllocated : IsAllocated (start_route w r m).0
  unfolding start_route add_listener drop_stopped modify
  start_route-IsAllocated k i h =
      ground (arith, lookup-insert (route_key r) k m.next m.route_map, a k i)

  started-route_map : (start_route w r m).0.route_map ≡ insert (route_key r) m.next m.route_map
  unfolding start_route add_listener drop_stopped modify
  started-route_map = refl

  pub started-route :
      (i : ℕ)
      → ((start_route w r m).0.listeners i).route
        ≡ (if m.next == i then r else (m.listeners i).route)
  unfolding start_route add_listener drop_stopped modify settle create_listener
  started-route i = ground arith

  -- Starting a route puts it under its key and leaves the other keys alone, also if it fails.
  pub view-start_route :
      (k : Str) → lookup k (view (start_route w r m).0) ≡ lookup k (insert (route_key r) r (view m))
  view-start_route k = view-added r m a (start_route w r m).0 started-route_map started-route k

insert_all-nil : (m : Map Route) (k : Str) → lookup k m ≡ lookup k (insert_all [] m)
unfolding insert_all
insert_all-nil m k = refl

pub insert_all-congr :
    (rs : List Route) (m n : Map Route)
    → ((k : Str) → lookup k m ≡ lookup k n)
    → (k : Str) → lookup k (insert_all rs m) ≡ lookup k (insert_all rs n)
unfolding insert_all
insert_all-congr [] m n same k = same k
insert_all-congr (r ∷ rs) m n same k =
    insert_all-congr rs (insert (route_key r) r m) (insert (route_key r) r n)
      (λ j. rw (lookup-insert (route_key r) j r m, lookup-insert (route_key r) j r n, same j)) k

pub insert_all-step :
    (r : Route) (rs : List Route) (m n : Map Route)
    → ((k : Str) → lookup k m ≡ lookup k (insert (route_key r) r n))
    → (k : Str) → lookup k (insert_all rs m) ≡ lookup k (insert_all (r ∷ rs) n)
unfolding insert_all
insert_all-step r rs m n same k = insert_all-congr rs m (insert (route_key r) r n) same k

-- Starting routes in turn puts each under its key.
pub view-start_all :
    (w : World) (rs : List Route) (m : RouteManager) (errs : List RouteError)
    → IsAllocated m
    → (k : Str) → lookup k (view (start_all w rs m errs).0) ≡ lookup k (insert_all rs (view m))
unfolding start_all
view-start_all w [] m errs a k = insert_all-nil (view m) k
view-start_all w (r ∷ rs) m errs a k =
    let m' = (start_route w r m).0 in
    view-start_all w rs m' _ (start_route-IsAllocated w r m a) k
    ∙ insert_all-step r rs (view m') (view m) (view-start_route w r m a) k

-- The errors of starting come on top of those so far.
pub start_all-clean :
    (w : World) (rs : List Route) (m : RouteManager) (errs : List RouteError)
    → (start_all w rs m errs).1 ≡ []
    → errs ≡ []
unfolding start_all
start_all-clean w [] m errs h = h
start_all-clean w (r ∷ rs) m errs h =
    let rest = start_all-clean w rs (start_route w r m).0 _ h in
    elim (Option-cases (start_route w r m).1) [
      | inl ok ↦ ground arith
      | inr (e, failed) ↦ absurd (append_one_ne_nil errs e (ground arith))
    ]
