-- ===== src/Prelude/Members.antt =====
-- Membership and predicates on lists, by recursion, so that the tactics read them. They stand at
-- the lowest level, where the empty type is, as all data of the program does.
use Prim.Native.Nat.{ℕ, zero, suc}
use mathlib.Core.Path.{◌≡◌, refl, ap, subst}
use mathlib.Core.Bool.{Bool, true}
use mathlib.Core.Logic.{◌⊎◌, inl, inr}
use mathlib.Core.Option.{some}
use mathlib.Core.List.{List, [], ◌∷◌, ◌++◌, map}
use native.Mathlib.Omega.{arith}
use smaug.Prelude.Lists.{keep, take, set, get_elem?}

module _ {A : Type 0} where
  abbrev pub In : A → List A → Type 0
  In a [] = ⊥
  In a (x ∷ xs) = (a ≡ x) ⊎ In a xs

  abbrev pub All : (A → Type 0) → List A → Type 0
  All P [] = Unit
  All P (x ∷ xs) = P x × All P xs

  -- No element stands twice.
  abbrev pub Distinct : List A → Type 0
  Distinct [] = Unit
  Distinct (x ∷ xs) = (¬ In x xs) × Distinct xs

  pub List-cases : (xs : List A) → (xs ≡ []) ⊎ ((x : A) × (ys : List A) × (xs ≡ x ∷ ys))
  List-cases [] = inl refl
  List-cases (x ∷ ys) = inr (x, ys, refl)

  pub All-In : (P : A → Type 0) (xs : List A) → All P xs → (a : A) → In a xs → P a
  All-In P [] h a m = absurd m
  All-In P (x ∷ xs) h a (inl e) = rw e h.0
  All-In P (x ∷ xs) h a (inr m) = All-In P xs h.1 a m

  pub In-append_left : (a : A) (xs ys : List A) → In a xs → In a (xs ++ ys)
  In-append_left a [] ys m = absurd m
  In-append_left a (x ∷ xs) ys (inl e) = inl e
  In-append_left a (x ∷ xs) ys (inr m) = inr (In-append_left a xs ys m)

  pub In-append_right : (a : A) (xs ys : List A) → In a ys → In a (xs ++ ys)
  In-append_right a [] ys m = m
  In-append_right a (x ∷ xs) ys m = inr (In-append_right a xs ys m)

  pub In-append_cases : (a : A) (xs ys : List A) → In a (xs ++ ys) → In a xs ⊎ In a ys
  In-append_cases a [] ys m = inr m
  In-append_cases a (x ∷ xs) ys (inl e) = inl (inl e)
  In-append_cases a (x ∷ xs) ys (inr m) = elim (In-append_cases a xs ys m) [
    | inl h ↦ inl (inr h)
    | inr h ↦ inr h
  ]

  -- What `keep` leaves: the members that pass.
  pub In-keep : (p : A → Bool) (a : A) (xs : List A) → In a (keep p xs) → In a xs × (p a ≡ true)
  unfolding keep
  In-keep p a [] m = absurd m
  In-keep p a (x ∷ xs) m = ground (arith, In-keep p a xs)

  pub keep-In : (p : A → Bool) (a : A) (xs : List A) → In a xs → p a ≡ true → In a (keep p xs)
  unfolding keep
  keep-In p a [] m h = absurd m
  keep-In p a (x ∷ xs) (inl e) h = ground arith
  keep-In p a (x ∷ xs) (inr m) h = ground (arith, keep-In p a xs m h)

  pub All-set : (P : A → Type 0) (xs : List A) (i : ℕ) (a : A) → All P xs → P a → All P (set xs i a)
  All-set P [] i a h p = h
  All-set P (x ∷ xs) zero a h p = (p, h.1)
  All-set P (x ∷ xs) (suc i) a h p = (h.0, All-set P xs i a h.1 p)

  pub All-get_elem? :
      (P : A → Type 0) (xs : List A) (i : ℕ) (a : A) → All P xs → get_elem? xs i ≡ some a → P a
  All-get_elem? P [] i a h e = ground arith
  All-get_elem? P (x ∷ xs) zero a h e = let eq : x ≡ a = ground arith in subst P eq h.0
  All-get_elem? P (x ∷ xs) (suc i) a h e = All-get_elem? P xs i a h.1 e

  pub All-append_one :
      (P : A → Type 0) (xs : List A) (a : A) → All P xs → P a → All P (xs ++ a ∷ [])
  All-append_one P [] a h p = (p, tt)
  All-append_one P (x ∷ xs) a h p = (h.0, All-append_one P xs a h.1 p)

pub In-take : {A : Type 0} (n : ℕ) (a : A) (xs : List A) → In a (take n xs) → In a xs
In-take zero a xs m = absurd m
In-take (suc n) a [] m = absurd m
In-take (suc n) a (x ∷ xs) (inl e) = inl e
In-take (suc n) a (x ∷ xs) (inr m) = inr (In-take n a xs m)

-- Tests that agree on the members keep the same.
pub keep-congr :
    {A : Type 0} (p q : A → Bool) (xs : List A)
    → ((a : A) → In a xs → p a ≡ q a)
    → keep p xs ≡ keep q xs
unfolding keep
keep-congr p q [] h = refl
keep-congr p q (x ∷ xs) h = ground (arith, h x (inl refl), keep-congr p q xs (λ a m. h a (inr m)))

pub In-map : {A B : Type 0} (f : A → B) (a : A) (xs : List A) → In a xs → In (f a) (map f xs)
In-map f a [] m = absurd m
In-map f a (x ∷ xs) (inl e) = inl (ap f e)
In-map f a (x ∷ xs) (inr m) = inr (In-map f a xs m)

pub In-map_inv :
    {A B : Type 0} (f : A → B) (b : B) (xs : List A)
    → In b (map f xs)
    → (a : A) × In a xs × (b ≡ f a)
In-map_inv f b [] m = absurd m
In-map_inv f b (x ∷ xs) (inl e) = (x, inl refl, e)
In-map_inv f b (x ∷ xs) (inr m) = let (a, h, e) = In-map_inv f b xs m in (a, inr h, e)
