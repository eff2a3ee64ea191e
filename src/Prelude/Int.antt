-- ===== src/Prelude/Int.antt =====
-- Signed integers over the native numbers, under the library's names, and the wrap-around of Go's
-- `int64`, on which `time.Duration` stands.
use Prim.Native.Nat.{ℕ, suc, ◌+◌, ◌-◌, ◌%◌, ◌≤◌, ◌<◌}
use mathlib.Core.Path.{◌≡◌}
use mathlib.Core.Bool.{Bool, false}
use native.Mathlib.Omega.{arith}
use smaug.Prelude.Tests.{◌==◌, ltb, leb, if◌then◌else◌}

-- `negsuc n` is -(n + 1).
pub data ℤ : Type 0 where
  pos : ℕ → ℤ
  negsuc : ℕ → ℤ

abbrev pub pos_part : ℤ → ℕ
pos_part (pos n) = n
pos_part (negsuc n) = 0

abbrev pub neg_part : ℤ → ℕ
neg_part (pos n) = 0
neg_part (negsuc n) = suc n

-- a - b, as an integer.
abbrev pub sub_ℕ : ℕ → ℕ → ℤ
sub_ℕ a b = if leb b a then pos (a - b) else negsuc (b - a - 1)

infix 50 ◌≤ℤ◌ ◌<ℤ◌
abbrev pub ◌≤ℤ◌ : ℤ → ℤ → Type 0
a ≤ℤ b = pos_part a + neg_part b ≤ pos_part b + neg_part a

abbrev pub ◌<ℤ◌ : ℤ → ℤ → Type 0
a <ℤ b = pos_part a + neg_part b < pos_part b + neg_part a

abbrev pub ltb_ℤ : ℤ → ℤ → Bool
ltb_ℤ a b = ltb (pos_part a + neg_part b) (pos_part b + neg_part a)

abbrev pub leb_ℤ : ℤ → ℤ → Bool
leb_ℤ a b = leb (pos_part a + neg_part b) (pos_part b + neg_part a)

abbrev pub is_zero : ℤ → Bool
is_zero (pos n) = n == 0
is_zero (negsuc n) = false

-- The largest `int64`.
abbrev pub max_int64 : ℕ
max_int64 = 9223372036854775807

-- An integer as the `int64` that holds its low 64 bits.
unfoldable pub wrap64 : ℤ → ℤ
wrap64 (pos n) =
    let r = n % 18446744073709551616 in
    if leb r max_int64 then pos r else negsuc (18446744073709551615 - r)
wrap64 (negsuc n) =
    let r = n % 18446744073709551616 in
    if leb r max_int64 then negsuc r else pos (18446744073709551615 - r)

-- Within range nothing is lost.
pub wrap64-pos : (n : ℕ) → n ≤ max_int64 → wrap64 (pos n) ≡ pos n
unfolding wrap64
wrap64-pos n h = ground arith

-- The result always fits.
pub wrap64-le : (z : ℤ) → wrap64 z ≤ℤ pos max_int64
unfolding wrap64
wrap64-le z = ground arith

-- An instant is its distance in nanoseconds from the zero `time.Time`, which is 0.
abbrev pub Time : Type 0
Time = ℕ

-- The largest and the smallest `time.Duration`.
abbrev pub max_duration : ℤ
max_duration = pos max_int64

abbrev pub min_duration : ℤ
min_duration = negsuc max_int64

-- t.Sub(u), which saturates.
unfoldable pub time_sub : Time → Time → ℤ
time_sub t u =
    let d = sub_ℕ t u in
    if ltb_ℤ max_duration d then max_duration else if ltb_ℤ d min_duration then min_duration else d
