-- ===== src/Prelude/Decimal.antt =====
-- Decimal numerals, as `fmt` writes an integer under `%d`.
use Prim.Native.Nat.{ℕ, zero, suc, ◌+◌, ◌-◌, ◌*◌, ◌/◌, ◌%◌, ◌≤◌, ◌<◌}
use mathlib.Core.Path.{◌≡◌, refl, sym, ap, ◌∙◌}
use mathlib.Core.Logic.{◌≢◌, ◌⊎◌, inl, inr}
use mathlib.Core.List.{[], ◌∷◌, ◌++◌}
use native.Mathlib.Omega.{arith}
use smaug.Prelude.Tests.{ltb, if◌then◌else◌, Bool-cases}
use smaug.Prelude.Members.{In, All}
use smaug.Prelude.Strings.{Str}
use smaug.Prelude.Int.{ℤ, pos, negsuc}

-- The fuel bounds the digits: a number has no more digits than its value plus one.
unfoldable pub digits : ℕ → ℕ → Str
digits zero n = []
digits (suc f) n =
    let more = digits f (n / 10) ++ (48 + n % 10) ∷ [] in if ltb n 10 then (48 + n) ∷ [] else more

unfoldable pub format_int : ℤ → Str
unfolding digits
format_int (pos n) = digits (suc n) n
format_int (negsuc n) = b'-' ∷ digits (suc (suc n)) (suc n)

-- The number that a numeral writes.
numeral : ℕ → Str → ℕ
numeral acc [] = acc
numeral acc (c ∷ s) = numeral (acc * 10 + (c - 48)) s

numeral-append :
    (acc : ℕ) (s : Str) (c : ℕ) → numeral acc (s ++ c ∷ []) ≡ numeral acc s * 10 + (c - 48)
unfolding numeral
numeral-append acc [] c = refl
numeral-append acc (d ∷ s) c = numeral-append (acc * 10 + (d - 48)) s c

numeral-digits : (f n : ℕ) → n < f → numeral 0 (digits f n) ≡ n
unfolding digits
numeral-digits zero n h = elim h [ ]
numeral-digits (suc f) n h = elim (Bool-cases (ltb n 10)) [
  | inl small ↦ rw small (unfold numeral in omega arith)
  | inr big ↦ rw big (
      omega (
        arith,
        numeral-append 0 (digits f (n / 10)) (48 + n % 10),
        numeral-digits f (n / 10) (ground arith),
      ))
]

abbrev IsDigit : ℕ → Type 0
IsDigit c = (48 ≤ c) × (c ≤ 57)

All-append_one : (s : Str) (c : ℕ) → All IsDigit s → IsDigit c → All IsDigit (s ++ c ∷ [])
All-append_one [] c a d = (d, tt)
All-append_one (x ∷ s) c a d = (a.0, All-append_one s c a.1 d)

digits-All : (f n : ℕ) → All IsDigit (digits f n)
unfolding digits
digits-All zero n = tt
digits-All (suc f) n = elim (Bool-cases (ltb n 10)) [
  | inl small ↦ rw small (ground arith)
  | inr big ↦
      rw big
        (All-append_one (digits f (n / 10)) (48 + n % 10) (digits-All f (n / 10)) (omega arith))
]

digit_free : (c : ℕ) (s : Str) → (c < 48) ⊎ (57 < c) → All IsDigit s → ¬ In c s
digit_free c [] out a m = m
digit_free c (x ∷ s) out a (inl e) = omega arith
digit_free c (x ∷ s) out a (inr m) = digit_free c s out a.1 m

digits_inj : (n m : ℕ) → digits (suc n) n ≡ digits (suc m) m → n ≡ m
digits_inj n m e =
    sym (numeral-digits (suc n) n (omega arith))
    ∙ ap (numeral 0) e
    ∙ numeral-digits (suc m) m (omega arith)

-- A numeral holds no colon.
pub format_int_colon : (z : ℤ) → ¬ In b':' (format_int z)
unfolding format_int
format_int_colon (pos n) m =
    digit_free b':' (digits (suc n) n) (inr (omega arith)) (digits-All (suc n) n) m
format_int_colon (negsuc n) (inl e) = omega arith
format_int_colon (negsuc n) (inr m) =
    digit_free b':' (digits (suc (suc n)) (suc n)) (inr (omega arith))
      (digits-All (suc (suc n)) (suc n)) m

unsigned : (n : ℕ) (s : Str) → digits (suc n) n ≢ b'-' ∷ s
unsigned n s e =
    digit_free b'-' (digits (suc n) n) (inl (omega arith)) (digits-All (suc n) n) (rw e (inl refl))

-- Two integers with the same numeral are equal.
pub format_int_inj : (y z : ℤ) → format_int y ≡ format_int z → y ≡ z
unfolding format_int
format_int_inj (pos n) (pos m) e = ap pos (digits_inj n m e)
format_int_inj (pos n) (negsuc m) e = absurd (unsigned n _ e)
format_int_inj (negsuc n) (pos m) e = absurd (unsigned m _ (sym e))
format_int_inj (negsuc n) (negsuc m) e = ground (arith, digits_inj (suc n) (suc m))
