-- ===== src/Proxy/RouteManager/Removing.antt =====
-- What the removal of keys leaves of an index and of a list of listeners
-- (internal/proxy/route_manager.go).
use smaug.Prelude.{
  ℕ, Str, str_eq_iff, contains, Bool, Bool-cases, not, List, [], ◌∷◌, map, none, ◌≡◌, inl, inr,
  refl, keep, arith, if◌then◌else◌,
}
use smaug.Prelude.Map.{Map, lookup, insert, delete, lookup-insert, lookup-delete}
use smaug.Config.Types.{Route}
use smaug.Proxy.Reload.{route_key, index_routes}
use smaug.Proxy.Reload.Patch.{delete_all}

-- The index of a list without the routes of some keys.
pub index-keep :
    (ks : List Str) (k : Str) (rs : List Route) (acc acc' : Map Route)
    → lookup k acc' ≡ (if contains k ks then none else lookup k acc)
    → lookup k (index_routes acc' (keep (λ r. not (contains (route_key r) ks)) rs))
      ≡ (if contains k ks then none else lookup k (index_routes acc rs))
unfolding index_routes keep
index-keep ks k [] acc acc' h = h
index-keep ks k (r ∷ rs) acc acc' h = elim (Bool-cases (contains (route_key r) ks)) [
  | inl gone ↦ rw gone (
      index-keep ks k rs (insert (route_key r) r acc) acc'
        (ground (arith, h, lookup-insert (route_key r) k r acc, str_eq_iff (route_key r) k)))
  | inr kept ↦ rw kept (
      index-keep ks k rs (insert (route_key r) r acc) (insert (route_key r) r acc') (
        ground (
          arith,
          h,
          lookup-insert (route_key r) k r acc,
          lookup-insert (route_key r) k r acc',
          str_eq_iff (route_key r) k,
        )))
]

pub delete_all-lookup :
    (ks : List Str) (k : Str) (m : Map Route)
    → lookup k (delete_all ks m) ≡ (if contains k ks then none else lookup k m)
unfolding delete_all contains
delete_all-lookup [] k m = refl
delete_all-lookup (j ∷ ks) k m = ground (
  arith,
  delete_all-lookup ks k (delete j m),
  lookup-delete j k m,
  str_eq_iff j k,
  str_eq_iff k j,
)

pub map-keep :
    (f : ℕ → Route) (p : Route → Bool) (is : List ℕ)
    → map f (keep (λ i. p (f i)) is) ≡ keep p (map f is)
unfolding keep
map-keep f p [] = refl
map-keep f p (i ∷ is) = ground (arith, map-keep f p is)
