-- ===== src/Proxy/Reload/Index.antt =====
-- The map of routes by key that detectChanges (internal/proxy/reload.go) builds.
use smaug.Prelude.{Str, str_eq_iff, List, [], ◌∷◌, some, ◌≡◌, Distinct, arith}
use smaug.Prelude.Map.{Map, keys, lookup, insert, lookup-insert, Distinct-insert}
use smaug.Config.Types.{Route}
use smaug.Proxy.Reload.{route_key, index_routes}

-- Every entry stands under the key of its route, and no key twice.
pub record IsIndex (m : Map Route) : Type 0 where
  pub keyed : (k : Str) (r : Route) → lookup k m ≡ some r → route_key r ≡ k
  pub distinct : Distinct (keys m)

index_routes-IsIndex : (m : Map Route) (rs : List Route) → IsIndex m → IsIndex (index_routes m rs)
unfolding index_routes
index_routes-IsIndex m [] i = i
index_routes-IsIndex m (r ∷ rs) i = index_routes-IsIndex (insert (route_key r) r m) rs (record {
  keyed = λ k s h.
      ground (arith, lookup-insert (route_key r) k r m, str_eq_iff (route_key r) k, i.keyed k s);
  distinct = Distinct-insert (route_key r) r m i.distinct;
})

-- The routes of a list by key: what the map that the code builds from the list holds.
abbrev pub index : List Route → Map Route
index = index_routes []

pub index-IsIndex : (rs : List Route) → IsIndex (index rs)
index-IsIndex rs =
    index_routes-IsIndex [] rs (record { keyed = λ k s h. unfold lookup in cc; distinct = tt })
