-- ===== src/Prelude/Strings.antt =====
-- Go strings: byte sequences, compared byte by byte.
use Prim.Native.Nat.{ℕ}
use Prim.Native.Char.{code}
use Prim.Native.String.{String}
use mathlib.Core.Path.{◌≡◌, refl}
use mathlib.Core.Logic.{◌↔◌, ◌⊎◌}
use mathlib.Core.Bool.{Bool, true, false, ◌&&◌, ◌||◌}
use mathlib.Core.List.{List, [], ◌∷◌}
use native.Mathlib.Omega.{arith}
use smaug.Prelude.Tests.{◌==◌}
use smaug.Prelude.Members.{In}

abbrev pub Str : Type 0
Str = List ℕ

-- The bytes of an ASCII literal.
abbrev pub str : String → Str
str String.[] = []
str (String.◌∷◌ c s) = code c ∷ str s

unfoldable pub str_eq : Str → Str → Bool
str_eq [] [] = true
str_eq [] (b ∷ t) = false
str_eq (a ∷ s) [] = false
str_eq (a ∷ s) (b ∷ t) = (a == b) && str_eq s t

-- The test for the empty string.
abbrev pub is_empty : Str → Bool
is_empty [] = true
is_empty (c ∷ s) = false

pub str_eq→eq : (s t : Str) → str_eq s t ≡ true → s ≡ t
unfolding str_eq
str_eq→eq [] [] h = refl
str_eq→eq [] (b ∷ t) h = ground arith
str_eq→eq (a ∷ s) [] h = ground arith
str_eq→eq (a ∷ s) (b ∷ t) h = ground (arith, str_eq→eq s t)

pub str_eq_refl : (s : Str) → str_eq s s ≡ true
unfolding str_eq
str_eq_refl [] = refl
str_eq_refl (a ∷ s) = ground (arith, str_eq_refl s)

pub str_eq_iff : (s t : Str) → (str_eq s t ≡ true) ↔ (s ≡ t)
str_eq_iff s t = (str_eq→eq s t, λ e. rw e (str_eq_refl t))

-- Equality of strings is decided.
pub str_cases : (s t : Str) → (s ≡ t) ⊎ (¬ (s ≡ t))
str_cases s t = ground (arith, str_eq_iff s t)

-- Whether a text stands in a list.
unfoldable pub contains : Str → List Str → Bool
contains s [] = false
contains s (t ∷ ts) = str_eq s t || contains s ts

pub contains_iff : (s : Str) (ts : List Str) → (contains s ts ≡ true) ↔ In s ts
unfolding contains
contains_iff s [] = ground arith
contains_iff s (t ∷ ts) = ground (arith, str_eq_iff s t, contains_iff s ts)
