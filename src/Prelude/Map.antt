-- ===== src/Prelude/Map.antt =====
-- Go's `map[string]V`: an association list. What depends on the order of `range` takes that order
-- as an argument.
use mathlib.Core.Path.{◌≡◌, refl}
use mathlib.Core.Logic.{◌⊎◌, inl, inr}
use mathlib.Core.List.{List, [], ◌∷◌, map}
use mathlib.Core.Option.{Option, none, some}
use native.Mathlib.Omega.{arith}
use smaug.Prelude.Tests.{if◌then◌else◌, Bool-cases}
use smaug.Prelude.Members.{In, In-map, Distinct}
use smaug.Prelude.Strings.{Str, str_eq, str_eq_iff}

abbrev pub Map : Type 0 → Type 0
Map V = List (Str × V)

module _ {V : Type 0} where
  abbrev pub keys : Map V → List Str
  keys = map λ e. e.0

  -- v, ok := m[k]
  unfoldable pub lookup : Str → Map V → Option V
  lookup k [] = none
  lookup k ((j, v) ∷ m) = if str_eq j k then some v else lookup k m

  -- m[k] = v
  unfoldable pub insert : Str → V → Map V → Map V
  insert k v [] = (k, v) ∷ []
  insert k v ((j, w) ∷ m) =
      let rest = insert k v m in if str_eq j k then (k, v) ∷ m else (j, w) ∷ rest

  -- delete(m, k)
  unfoldable pub delete : Str → Map V → Map V
  delete k [] = []
  delete k ((j, w) ∷ m) = let rest = delete k m in if str_eq j k then rest else (j, w) ∷ rest

  pub lookup-insert :
      (k j : Str) (v : V) (m : Map V)
      → lookup j (insert k v m) ≡ (if str_eq k j then some v else lookup j m)
  unfolding lookup insert
  lookup-insert k j v [] = refl
  lookup-insert k j v ((i, w) ∷ m) =
      ground (arith, str_eq_iff k j, str_eq_iff i k, str_eq_iff i j, lookup-insert k j v m)

  pub lookup-delete :
      (k j : Str) (m : Map V) → lookup j (delete k m) ≡ (if str_eq k j then none else lookup j m)
  unfolding lookup delete
  lookup-delete k j [] = ground arith
  lookup-delete k j ((i, w) ∷ m) =
      ground (arith, str_eq_iff k j, str_eq_iff i k, str_eq_iff i j, lookup-delete k j m)

  pub lookup-In : (k : Str) (v : V) (m : Map V) → lookup k m ≡ some v → In (k, v) m
  unfolding lookup
  lookup-In k v [] h = ground arith
  lookup-In k v ((j, w) ∷ m) h = ground (arith, str_eq_iff j k, lookup-In k v m)

  pub lookup-In-keys : (k : Str) (v : V) (m : Map V) → lookup k m ≡ some v → In k (keys m)
  unfolding lookup
  lookup-In-keys k v [] h = ground arith
  lookup-In-keys k v ((j, w) ∷ m) h = ground (arith, str_eq_iff j k, lookup-In-keys k v m)

  pub In-keys-lookup : (k : Str) (m : Map V) → In k (keys m) → (v : V) × (lookup k m ≡ some v)
  unfolding lookup
  In-keys-lookup k [] h = absurd h
  In-keys-lookup k ((j, w) ∷ m) (inl e) = (w, ground (arith, str_eq_iff j k))
  In-keys-lookup k ((j, w) ∷ m) (inr h) = elim (Bool-cases (str_eq j k)) [
    | inl hit ↦ (w, rw hit refl)
    | inr miss ↦ let (v, e) = In-keys-lookup k m h in (v, rw miss e)
  ]

  pub In-keys-insert :
      (k j : Str) (v : V) (m : Map V) → In j (keys (insert k v m)) → (j ≡ k) ⊎ In j (keys m)
  unfolding insert
  In-keys-insert k j v [] h = h
  In-keys-insert k j v ((i, w) ∷ m) h = ground (arith, In-keys-insert k j v m, str_eq_iff i k)

  -- Insertion keeps one entry for each key.
  pub Distinct-insert :
      (k : Str) (v : V) (m : Map V) → Distinct (keys m) → Distinct (keys (insert k v m))
  unfolding insert
  Distinct-insert k v [] d = ((λ h. h), tt)
  Distinct-insert k v ((i, w) ∷ m) d = elim (Bool-cases (str_eq i k)) [
    | inl hit ↦ rw (hit, ← (str_eq_iff i k).0 hit) d
    | inr miss ↦ rw miss (
      (λ h. ground (arith, In-keys-insert k i v m h, str_eq_iff i k, d.0)),
      Distinct-insert k v m d.1,
    )
  ]

  -- With one entry for each key, an entry is found under its key.
  pub In-lookup :
      (k : Str) (v : V) (m : Map V) → Distinct (keys m) → In (k, v) m → lookup k m ≡ some v
  unfolding lookup
  In-lookup k v [] d h = absurd h
  In-lookup k v ((j, w) ∷ m) d (inl e) = ground (arith, str_eq_iff j k)
  In-lookup k v ((j, w) ∷ m) d (inr h) = elim (Bool-cases (str_eq j k)) [
    | inl hit ↦
        absurd (d.0 (rw ((str_eq_iff j k).0 hit) (In-map (λ (e : Str × V). e.0) (k, v) m h)))
    | inr miss ↦ rw miss (In-lookup k v m d.1 h)
  ]

  pub ruleset map_laws = (lookup-insert, lookup-delete)

abbrev pub map_option {ℓ κ} : {A : Type ℓ} {B : Type κ} → (A → B) → Option A → Option B
map_option f none = none
map_option f (some a) = some (f a)

-- A map with a function applied to its values.
module _ {V W : Type 0} (f : V → W) where
  unfoldable pub map_values : Map V → Map W
  map_values [] = []
  map_values ((k, v) ∷ m) = (k, f v) ∷ map_values m

  pub lookup-map_values :
      (k : Str) (m : Map V) → lookup k (map_values m) ≡ map_option f (lookup k m)
  unfolding lookup map_values
  lookup-map_values k [] = refl
  lookup-map_values k ((j, v) ∷ m) = ground (arith, lookup-map_values k m)

  pub map_values-delete : (k : Str) (m : Map V) → map_values (delete k m) ≡ delete k (map_values m)
  unfolding delete map_values
  map_values-delete k [] = refl
  map_values-delete k ((j, v) ∷ m) = ground (arith, map_values-delete k m)
