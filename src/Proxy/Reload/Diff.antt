-- ===== src/Proxy/Reload/Diff.antt =====
-- What each list of `detect_changes` holds, whatever the order of the ranges.
use smaug.Prelude.{
  Str, str_eq_iff, Bool, true, List, ◌++◌, map, none, some, Option-cases, ◌≡◌, ◌↔◌, inl, inr, refl,
  ap, ◌∙◌, In, keep, In-keep, keep-In, In-map, In-map_inv, arith, ◌≢◌,
}
use smaug.Prelude.Map.{Map, lookup, lookup-In, In-lookup}
use smaug.Config.Types.{Route}
use smaug.Proxy.Reload.{
  RouteChanges, route_key, route_equals, classify, note_removed, for_each, no_changes, IsRange,
  detect_changes,
}
use smaug.Proxy.Reload.Passes.{
  is_added, is_modified, is_unchanged, is_removed, route_of, key_of, classify-added,
  classify-modified, classify-unchanged, classify-removed, note_removed-removed, note_removed-rest,
  for_each-grows, for_each-keeps,
}
use smaug.Proxy.Reload.Index.{index, index-IsIndex}

pub route_equals_iff : (a b : Route) → (route_equals a b ≡ true) ↔ (a ≡ b)
unfolding route_equals
route_equals_iff a b = ground (
  arith,
  str_eq_iff a.name b.name,
  str_eq_iff a.upstream b.upstream,
  str_eq_iff a.server b.server,
)

modified_entry :
    (m : Map Route) (e : Str × Route)
    → is_modified m e ≡ true
    → (o : Route) × (lookup e.0 m ≡ some o) × (o ≢ e.1)
modified_entry m e h = elim (Option-cases (lookup e.0 m)) [
  | inl n ↦ ground arith
  | inr (o, f) ↦ (o, f, ground (arith, route_equals_iff o e.1))
]

unchanged_entry :
    (m : Map Route) (e : Str × Route) → is_unchanged m e ≡ true → lookup e.0 m ≡ some e.1
unchanged_entry m e h = elim (Option-cases (lookup e.0 m)) [
  | inl n ↦ ground arith
  | inr (o, f) ↦ ground (arith, route_equals_iff o e.1)
]

module _ (range : Map Route → Map Route) (r : IsRange range) where
  -- What a list of the changes holds: the entries of the map that pass its test.
  selected_iff :
      {A : Type 0} (f : Str × Route → A) (p : Str × Route → Bool) (m : Map Route) (a : A)
      → In a (map f (keep p (range m))) ↔ ((e : Str × Route) × In e m × (p e ≡ true) × (a ≡ f e))
  selected_iff f p m a = (
    λ h.
        let (e, kept, eq) = In-map_inv f a (keep p (range m)) h in
        let (listed, passes) = In-keep p e (range m) kept in (e, r.sound m e listed, passes, eq),
    λ s.
        rw s.3
          (In-map f s.0 (keep p (range m)) (keep-In p s.0 (range m) (r.complete m s.0 s.1) s.2)),
  )

  module _ (old_routes new_routes : List Route) where
    abbrev changes : RouteChanges
    changes = detect_changes range old_routes new_routes

    abbrev old : Map Route
    old = index old_routes

    abbrev new : Map Route
    new = index new_routes

    abbrev first_pass : RouteChanges
    first_pass = for_each (classify old) no_changes (range new)

    added-eq : changes.added ≡ map route_of (keep (is_added old) (range new))
    unfolding detect_changes
    added-eq =
        for_each-keeps (note_removed new) (λ c. c.added) (λ c e. (note_removed-rest new c e).0)
          first_pass (range old)
        ∙ for_each-grows (classify old) (λ c. c.added) route_of (is_added old) (classify-added old)
            no_changes (range new)

    modified-eq : changes.modified ≡ map route_of (keep (is_modified old) (range new))
    unfolding detect_changes
    modified-eq =
        for_each-keeps (note_removed new) (λ c. c.modified) (λ c e. (note_removed-rest new c e).1)
          first_pass (range old)
        ∙ for_each-grows (classify old) (λ c. c.modified) route_of (is_modified old)
            (classify-modified old) no_changes (range new)

    unchanged-eq : changes.unchanged ≡ map key_of (keep (is_unchanged old) (range new))
    unfolding detect_changes
    unchanged-eq =
        for_each-keeps (note_removed new) (λ c. c.unchanged) (λ c e. (note_removed-rest new c e).2)
          first_pass (range old)
        ∙ for_each-grows (classify old) (λ c. c.unchanged) key_of (is_unchanged old)
            (classify-unchanged old) no_changes (range new)

    removed-eq : changes.removed ≡ map key_of (keep (is_removed new) (range old))
    unfolding detect_changes
    removed-eq =
        for_each-grows (note_removed new) (λ c. c.removed) key_of (is_removed new)
          (note_removed-removed new) first_pass (range old)
        ∙ ap (λ (l : List Str). l ++ map key_of (keep (is_removed new) (range old)))
            (for_each-keeps (classify old) (λ c. c.removed) (classify-removed old) no_changes
              (range new))

    -- An entry of an index, read as a lookup.
    entry :
        (rs : List Route) (e : Str × Route)
        → In e (index rs)
        → (lookup e.0 (index rs) ≡ some e.1) × (route_key e.1 ≡ e.0)
    entry rs (k, v) h =
        let found = In-lookup k v (index rs) (index-IsIndex rs).distinct h in
        (found, (index-IsIndex rs).keyed k v found)

    -- Added are the new routes whose key no old route has.
    pub added_iff :
        (a : Route)
        → In a changes.added
          ↔ ((lookup (route_key a) new ≡ some a) × (lookup (route_key a) old ≡ none))
    added_iff a = rw added-eq (
      λ h.
          let (e, listed, passes, eq) = (selected_iff route_of (is_added old) new a).0 h in
          let (found, key) = entry new_routes e listed in rw (eq, key) (found, ground arith),
      λ h.
          (selected_iff route_of (is_added old) new a).1
            ((route_key a, a), lookup-In (route_key a) a new h.0, ground arith, refl),
    )

    -- Modified are the new routes whose key an old route has that differs.
    pub modified_iff :
        (a : Route)
        → In a changes.modified ↔ (
            (lookup (route_key a) new ≡ some a)
            × (o : Route) × (lookup (route_key a) old ≡ some o)
            × (o ≢ a))
    modified_iff a = rw modified-eq (
      λ h.
          let (e, listed, passes, eq) = (selected_iff route_of (is_modified old) new a).0 h in
          let (found, key) = entry new_routes e listed in
          let (o, held, other) = modified_entry old e passes in
          rw (eq, key) (found, o, held, other),
      λ h. (selected_iff route_of (is_modified old) new a).1 (
        (route_key a, a),
        lookup-In (route_key a) a new h.0,
        ground (arith, route_equals_iff h.1 a),
        refl,
      ),
    )

    -- Unchanged are the keys that have one and the same route in both.
    pub unchanged_iff :
        (k : Str)
        → In k changes.unchanged ↔ ((a : Route) × (lookup k new ≡ some a) × (lookup k old ≡ some a))
    unchanged_iff k = rw unchanged-eq (
      λ h.
          let (e, listed, passes, eq) = (selected_iff key_of (is_unchanged old) new k).0 h in
          let (found, key) = entry new_routes e listed in
          rw eq (e.1, found, unchanged_entry old e passes),
      λ h.
          (selected_iff key_of (is_unchanged old) new k).1
            ((k, h.0), lookup-In k h.0 new h.1, ground (arith, route_equals_iff h.0 h.0), refl),
    )

    -- Removed are the old keys that no new route has.
    pub removed_iff :
        (k : Str)
        → In k changes.removed ↔ ((a : Route) × (lookup k old ≡ some a) × (lookup k new ≡ none))
    removed_iff k = rw removed-eq (
      λ h.
          let (e, listed, passes, eq) = (selected_iff key_of (is_removed new) old k).0 h in
          let (found, key) = entry old_routes e listed in rw eq (e.1, found, ground arith),
      λ h.
          (selected_iff key_of (is_removed new) old k).1
            ((k, h.0), lookup-In k h.0 old h.1, ground arith, refl),
    )
