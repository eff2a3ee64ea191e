-- ===== src/Proxy/Reload/Patch.antt =====
-- The changes are enough: taken out of and put into the old routes, they give the new ones.
use smaug.Prelude.{
  Str, str_eq_iff, Bool-cases, List, [], ◌∷◌, ◌++◌, map, none, some, Option-cases, ◌≡◌, ◌≢◌, ◌⊎◌,
  inl, inr, refl, sym, ◌∙◌, In, In-append_left, In-append_right, In-append_cases, In-map_inv, arith,
}
use smaug.Prelude.Map.{Map, lookup, insert, delete, lookup-insert, lookup-delete}
use smaug.Config.Types.{Route}
use smaug.Proxy.Reload.{RouteChanges, route_key, route_equals, IsRange, detect_changes}
use smaug.Proxy.Reload.Index.{index, index-IsIndex}
use smaug.Proxy.Reload.Diff.{added_iff, modified_iff, removed_iff, route_equals_iff}

unfoldable pub delete_all : List Str → Map Route → Map Route
delete_all [] m = m
delete_all (k ∷ ks) m = delete_all ks (delete k m)

unfoldable pub insert_all : List Route → Map Route → Map Route
insert_all [] m = m
insert_all (r ∷ rs) m = insert_all rs (insert (route_key r) r m)

-- Removed and modified keys go, added and modified routes come.
unfoldable pub patch : RouteChanges → Map Route → Map Route
patch ch m =
    insert_all (ch.added ++ ch.modified) (delete_all (ch.removed ++ map route_key ch.modified) m)

delete_all-none :
    (k : Str) (ks : List Str) (m : Map Route)
    → lookup k m ≡ none
    → lookup k (delete_all ks m) ≡ none
unfolding delete_all
delete_all-none k [] m h = h
delete_all-none k (j ∷ ks) m h =
    delete_all-none k ks (delete j m) (ground (arith, lookup-delete j k m))

delete_all-In :
    (k : Str) (ks : List Str) (m : Map Route) → In k ks → lookup k (delete_all ks m) ≡ none
unfolding delete_all
delete_all-In k [] m h = absurd h
delete_all-In k (j ∷ ks) m (inl e) =
    delete_all-none k ks (delete j m) (ground (arith, lookup-delete j k m, str_eq_iff j k))
delete_all-In k (j ∷ ks) m (inr h) = delete_all-In k ks (delete j m) h

delete_all-other :
    (k : Str) (ks : List Str) (m : Map Route) → ¬ In k ks → lookup k (delete_all ks m) ≡ lookup k m
unfolding delete_all
delete_all-other k [] m h = refl
delete_all-other k (j ∷ ks) m h =
    delete_all-other k ks (delete j m) (λ i. h (inr i))
    ∙ ground (arith, lookup-delete j k m, str_eq_iff j k, λ (e : j ≡ k). h (inl (sym e)))

module _ (goal : Map Route) where
  -- Routes that are the goal's own keep what already agrees with the goal.
  insert_all-agrees :
      (k : Str) (rs : List Route) (m : Map Route)
      → ((r : Route) → In r rs → lookup (route_key r) goal ≡ some r)
      → lookup k m ≡ lookup k goal
      → lookup k (insert_all rs m) ≡ lookup k goal
  unfolding insert_all
  insert_all-agrees k [] m own h = h
  insert_all-agrees k (r ∷ rs) m own h =
      insert_all-agrees k rs (insert (route_key r) r m) (λ s i. own s (inr i))
        (ground
          (arith, lookup-insert (route_key r) k r m, str_eq_iff (route_key r) k, own r (inl refl)))

  insert_all-In :
      (r : Route) (rs : List Route) (m : Map Route)
      → ((s : Route) → In s rs → lookup (route_key s) goal ≡ some s)
      → In r rs
      → lookup (route_key r) (insert_all rs m) ≡ lookup (route_key r) goal
  unfolding insert_all
  insert_all-In r [] m own i = absurd i
  insert_all-In r (s ∷ rs) m own (inl e) =
      insert_all-agrees (route_key r) rs (insert (route_key s) s m) (λ t j. own t (inr j))
        (ground (
          arith,
          lookup-insert (route_key s) (route_key r) s m,
          str_eq_iff (route_key s) (route_key r),
          own s (inl refl),
        ))
  insert_all-In r (s ∷ rs) m own (inr i) =
      insert_all-In r rs (insert (route_key s) s m) (λ t j. own t (inr j)) i

module _ (range : Map Route → Map Route) (r : IsRange range)
    (old_routes new_routes : List Route) where
  abbrev ch : RouteChanges
  ch = detect_changes range old_routes new_routes

  abbrev pub gone : List Str
  gone = ch.removed ++ map route_key ch.modified

  started-own :
      (s : Route)
      → In s (ch.added ++ ch.modified)
      → lookup (route_key s) (index new_routes) ≡ some s
  started-own s i = elim (In-append_cases s ch.added ch.modified i) [
    | inl a ↦ ((added_iff range r old_routes new_routes s).0 a).0
    | inr m ↦ ((modified_iff range r old_routes new_routes s).0 m).0
  ]

  -- A key that goes, goes for good or comes back with another route.
  gone-differs :
      (k : Str) (s : Route)
      → In k gone
      → lookup k (index new_routes) ≡ some s
      → lookup k (index old_routes) ≢ some s
  gone-differs k s i found same =
      elim (In-append_cases k ch.removed (map route_key ch.modified) i) [
        | inl a ↦ let (o, held, lost) = (removed_iff range r old_routes new_routes k).0 a in cc
        | inr m ↦
            let (t, listed, e) = In-map_inv route_key k ch.modified m in
            let (own, o, held, differs) = (modified_iff range r old_routes new_routes t).0 listed in
            differs (ground arith)
      ]

  -- From any map that agrees with the old routes, taking out the removed keys and any of the
  -- modified ones, and putting in the added and the modified routes, gives the new routes.
  module _ (held_now : Map Route) (ks : List Str)
      (agrees : (k : Str) → lookup k held_now ≡ lookup k (index old_routes))
      (within : (k : Str) → In k ks → In k gone)
      (enough : (k : Str) → In k ch.removed → In k ks) where
    abbrev kept : Map Route
    kept = delete_all ks held_now

    abbrev result : Map Route
    result = insert_all (ch.added ++ ch.modified) kept

    patch-started :
        (k : Str) (s : Route)
        → lookup k (index new_routes) ≡ some s
        → (In s ch.added) ⊎ (In s ch.modified)
        → lookup k result ≡ lookup k (index new_routes)
    patch-started k s found i =
        let key = (index-IsIndex new_routes).keyed k s found in
        rw key at (
          insert_all-In (index new_routes) s (ch.added ++ ch.modified) kept started-own (elim i [
            | inl a ↦ In-append_left s ch.added ch.modified a
            | inr m ↦ In-append_right s ch.added ch.modified m
          ]))

    patch-held :
        (k : Str) (s o : Route)
        → lookup k (index new_routes) ≡ some s
        → lookup k (index old_routes) ≡ some o
        → lookup k result ≡ lookup k (index new_routes)
    patch-held k s o found held = elim (Bool-cases (route_equals o s)) [
      | inl same ↦
          let e = (route_equals_iff o s).0 same in
          insert_all-agrees (index new_routes) k (ch.added ++ ch.modified) kept started-own (
            delete_all-other k ks held_now (λ i. gone-differs k s (within k i) found (rw e at held))
            ∙ (agrees k ∙ ground arith))
      | inr other ↦
          let key = (index-IsIndex new_routes).keyed k s found in
          patch-started k s found (
            inr (
              (modified_iff range r old_routes new_routes s).1
                (rw key found, o, rw key held, λ e. ground (arith, route_equals_iff o s))))
    ]

    patch-lost :
        (k : Str)
        → lookup k (index new_routes) ≡ none
        → lookup k result ≡ lookup k (index new_routes)
    patch-lost k lost =
        insert_all-agrees (index new_routes) k (ch.added ++ ch.modified) kept started-own
          (elim (Option-cases (lookup k (index old_routes))) [
            | inl n ↦ delete_all-none k ks held_now (agrees k ∙ n) ∙ sym lost
            | inr (o, held) ↦
                delete_all-In k ks held_now
                  (enough k ((removed_iff range r old_routes new_routes k).1 (o, held, lost)))
                ∙ sym lost
          ])

    pub patch-partial : (k : Str) → lookup k result ≡ lookup k (index new_routes)
    patch-partial k = elim (Option-cases (lookup k (index new_routes))) [
      | inl lost ↦ patch-lost k lost
      | inr (s, found) ↦ elim (Option-cases (lookup k (index old_routes))) [
        | inl n ↦
            let key = (index-IsIndex new_routes).keyed k s found in
            patch-started k s found
              (inl ((added_iff range r old_routes new_routes s).1 (rw key found, rw key n)))
        | inr (o, held) ↦ patch-held k s o found held
      ]
    ]

  -- Whatever the order of the ranges: the old routes, without the removed and the modified keys
  -- and with the added and the modified routes, are the new routes, key by key.
  pub patch-detect_changes :
      (k : Str)
      → lookup k (patch (detect_changes range old_routes new_routes) (index old_routes))
        ≡ lookup k (index new_routes)
  unfolding patch
  patch-detect_changes =
      patch-partial (index old_routes) gone (λ k. refl) (λ k i. i)
        (λ k i. In-append_left k ch.removed (map route_key ch.modified) i)
