-- ===== src/Proxy/Reload/Passes.antt =====
-- What one turn of the loops of detectChanges (internal/proxy/reload.go) adds to each list.
use mathlib.Core.List.{append_assoc, append-nil}
use smaug.Prelude.{
  Str, Bool, true, false, not, List, [], ◌∷◌, ◌++◌, map, none, some, Bool-cases, ◌≡◌, inl, inr,
  refl, sym, ◌∙◌, keep, arith,
}
use smaug.Prelude.Map.{Map, lookup}
use smaug.Config.Types.{Route}
use smaug.Proxy.Reload.{RouteChanges, route_equals, classify, note_removed, for_each}

abbrev pub is_added : Map Route → Str × Route → Bool
is_added old e = elim (lookup e.0 old) [ none ↦ true | some o ↦ false ]

abbrev pub is_modified : Map Route → Str × Route → Bool
is_modified old e = elim (lookup e.0 old) [ none ↦ false | some o ↦ not (route_equals o e.1) ]

abbrev pub is_unchanged : Map Route → Str × Route → Bool
is_unchanged old e = elim (lookup e.0 old) [ none ↦ false | some o ↦ route_equals o e.1 ]

abbrev pub route_of : Str × Route → Route
route_of e = e.1

abbrev pub key_of : Str × Route → Str
key_of e = e.0

abbrev pub one_if {ℓ} : {A : Type ℓ} → Bool → A → List A
one_if true a = a ∷ []
one_if false a = []

-- Appending what one element contributes, and then the rest, is appending what they all do.
append_step {ℓ} :
    {A : Type ℓ} (xs : List A) (b : Bool) (a : A) (rest : List A)
    → (xs ++ one_if b a) ++ rest ≡ xs ++ (one_if b a ++ rest)
append_step xs b a rest = append_assoc xs (one_if b a) rest

map-keep_step :
    {A B : Type 0} (f : A → B) (p : A → Bool) (x : A) (xs : List A)
    → map f (keep p (x ∷ xs)) ≡ one_if (p x) (f x) ++ map f (keep p xs)
unfolding keep
map-keep_step f p x xs = elim (Bool-cases (p x)) [ inl h ↦ rw h | inr h ↦ rw h ]

module _ (old : Map Route) (ch : RouteChanges) (e : Str × Route) where
  pub classify-added : (classify old ch e).added ≡ ch.added ++ one_if (is_added old e) e.1
  unfolding classify
  classify-added = ground (arith, append-nil ch.added)

  pub classify-modified :
      (classify old ch e).modified ≡ ch.modified ++ one_if (is_modified old e) e.1
  unfolding classify
  classify-modified = ground (arith, append-nil ch.modified)

  pub classify-unchanged :
      (classify old ch e).unchanged ≡ ch.unchanged ++ one_if (is_unchanged old e) e.0
  unfolding classify
  classify-unchanged = ground (arith, append-nil ch.unchanged)

  pub classify-removed : (classify old ch e).removed ≡ ch.removed
  unfolding classify
  classify-removed = ground arith

abbrev pub is_removed : Map Route → Str × Route → Bool
is_removed new e = elim (lookup e.0 new) [ none ↦ true | some r ↦ false ]

module _ (new : Map Route) (ch : RouteChanges) (e : Str × Route) where
  pub note_removed-removed :
      (note_removed new ch e).removed ≡ ch.removed ++ one_if (is_removed new e) e.0
  unfolding note_removed
  note_removed-removed = ground (arith, append-nil ch.removed)

  pub note_removed-rest :
      ((note_removed new ch e).added ≡ ch.added)
      × ((note_removed new ch e).modified ≡ ch.modified)
      × ((note_removed new ch e).unchanged ≡ ch.unchanged)
  unfolding note_removed
  note_removed-rest = ground arith

module _ {A : Type 0} (body : RouteChanges → Str × Route → RouteChanges)
    (field : RouteChanges → List A) where
  -- A field that grows by what passes a test.
  pub for_each-grows :
      (f : Str × Route → A) (p : Str × Route → Bool)
      → ((ch : RouteChanges) (e : Str × Route) → field (body ch e) ≡ field ch ++ one_if (p e) (f e))
      → (ch : RouteChanges) (es : Map Route)
      → field (for_each body ch es) ≡ field ch ++ map f (keep p es)
  unfolding for_each
  for_each-grows f p step ch [] = unfold keep in sym (append-nil (field ch))
  for_each-grows f p step ch (e ∷ es) =
      rw (for_each-grows f p step (body ch e) es, step ch e, map-keep_step f p e es)
        (append_step (field ch) (p e) (f e) (map f (keep p es)))

  -- A field that the loop leaves alone.
  pub for_each-keeps :
      ((ch : RouteChanges) (e : Str × Route) → field (body ch e) ≡ field ch)
      → (ch : RouteChanges) (es : Map Route) → field (for_each body ch es) ≡ field ch
  unfolding for_each
  for_each-keeps same ch [] = refl
  for_each-keeps same ch (e ∷ es) = for_each-keeps same (body ch e) es ∙ same ch e
