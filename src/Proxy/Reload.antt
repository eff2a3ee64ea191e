-- ===== src/Proxy/Reload.antt =====
-- internal/proxy/reload.go. A Go map is ranged over in an order of the runtime's choice: `range` is
-- a parameter, and `IsRange` is what the language promises of it.
pub mod Keys
pub mod Index
pub mod Passes
pub mod Diff
pub mod Patch
pub mod Same
use smaug.Prelude.{
  ℤ, Str, str_eq, Bool, true, false, ◌&&◌, List, [], ◌∷◌, ◌++◌, Option, none, some, is_zero,
  if◌then◌else◌, format_int, In, Distinct, leb_ℤ,
}
use smaug.Prelude.Map.{Map, keys, lookup, insert}
use smaug.Config.Types.{Route}

pub record RouteChanges : Type 0 where
  pub added : List Route
  pub removed : List Str
  pub modified : List Route
  pub unchanged : List Str

-- fmt.Sprintf("%s:%d", route.Name, route.Listen)
unfoldable pub route_key : Route → Str
route_key r = r.name ++ b':' ∷ format_int r.listen

abbrev eq_ℤ : ℤ → ℤ → Bool
eq_ℤ a b = leb_ℤ a b && leb_ℤ b a

unfoldable pub route_equals : Route → Route → Bool
route_equals a b =
    str_eq a.name b.name
    && eq_ℤ a.listen b.listen
    && str_eq a.upstream b.upstream
    && str_eq a.server b.server

-- The map that both loops over the routes build: a later route replaces one with its key.
unfoldable pub index_routes : Map Route → List Route → Map Route
index_routes m [] = m
index_routes m (r ∷ rs) = index_routes (insert (route_key r) r m) rs

-- The body of the loop over the new map.
unfoldable pub classify : Map Route → RouteChanges → Str × Route → RouteChanges
classify old ch (key, new_route) = elim (lookup key old) [
  | none ↦ record ch { added = ch.added ++ new_route ∷ [] }
  | some old_route ↦
      if route_equals old_route new_route
      then record ch { unchanged = ch.unchanged ++ key ∷ [] }
      else record ch { modified = ch.modified ++ new_route ∷ [] }
]

-- The body of the loop over the old map.
unfoldable pub note_removed : Map Route → RouteChanges → Str × Route → RouteChanges
note_removed new ch (key, r) = elim (lookup key new) [
  | none ↦ record ch { removed = ch.removed ++ key ∷ [] }
  | some s ↦ ch
]

-- for key, route := range m { ... }
unfoldable pub for_each :
    (RouteChanges → Str × Route → RouteChanges) → RouteChanges → Map Route → RouteChanges
for_each body ch [] = ch
for_each body ch (e ∷ es) = for_each body (body ch e) es

abbrev pub no_changes : RouteChanges
no_changes = record { added = []; removed = []; modified = []; unchanged = [] }

-- What `range` promises: each entry once, in some order.
pub record IsRange (range : Map Route → Map Route) : Type 0 where
  pub complete : (m : Map Route) (e : Str × Route) → In e m → In e (range m)
  pub sound : (m : Map Route) (e : Str × Route) → In e (range m) → In e m

module _ (range : Map Route → Map Route) where
  unfoldable pub detect_changes : List Route → List Route → RouteChanges
  detect_changes old_routes new_routes =
      let old_map = index_routes [] old_routes in
      let new_map = index_routes [] new_routes in
      for_each (note_removed new_map) (for_each (classify old_map) no_changes (range new_map))
        (range old_map)
