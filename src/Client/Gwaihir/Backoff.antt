-- ===== src/Client/Gwaihir/Backoff.antt =====
-- RetryConfig.Backoff (internal/client/gwaihir/types.go). The jitter is an argument: the number
-- that math/rand gives, as a function of the delay.
use Prim.Native.Nat.{min}
use native.Mathlib.Nat.{pow-suc}
use smaug.Prelude.{
  ℕ, zero, suc, ◌+◌, ◌-◌, ◌*◌, ◌/◌, ◌^◌, ◌≤◌, ◌<◌, ℤ, pos, ◌≤ℤ◌, ◌<ℤ◌, pos_part, neg_part, sub_ℕ,
  ltb_ℤ, wrap64, max_int64, ◌≡◌, ◌⊎◌, arith, if◌then◌else◌,
}

abbrev pub max_backoff_delay : ℕ
max_backoff_delay = 60_000_000_000

-- delay *= 2 on an int64
abbrev double : ℤ → ℤ
double z = wrap64 (sub_ℕ (2 * pos_part z) (2 * neg_part z))

-- The loop, with `n` rounds to go.
unfoldable pub grow : ℕ → ℤ → ℤ
grow zero delay = delay
grow (suc n) delay =
    let next = double delay in
    let rest = grow n next in
    if ltb_ℤ (pos max_backoff_delay) next then pos max_backoff_delay else rest

-- The delay before jitter: for i := 1; i < retry; i++ makes retry - 1 rounds.
unfoldable pub base_backoff : ℤ → ℕ → ℤ
unfolding grow
base_backoff base_delay retry =
    let delay = grow (retry - 1) base_delay in
    if ltb_ℤ (pos max_backoff_delay) delay then pos max_backoff_delay else delay

module _ (jitter : ℤ → ℤ) where
  unfoldable pub backoff : ℤ → ℕ → ℤ
  backoff base_delay retry =
      let delay = base_backoff base_delay retry in
      let j = jitter delay in
      wrap64 (sub_ℕ (pos_part delay + pos_part j) (neg_part delay + neg_part j))

abbrev capped : ℤ → ℤ
capped z = if ltb_ℤ (pos max_backoff_delay) z then pos max_backoff_delay else z

double-pos : (d : ℕ) → 2 * d ≤ max_int64 → double (pos d) ≡ pos (2 * d)
unfolding wrap64
double-pos d h = ground arith

power_pos : (n : ℕ) → 1 ≤ 2 ^ n
power_pos zero = omega arith
power_pos (suc n) = omega (arith, power_pos n, pow-suc 2 n)

power_step : (d n : ℕ) → d * 2 ^ suc n ≡ (2 * d) * 2 ^ n
power_step d n = rw pow-suc (omega arith)

grown : (d n : ℕ) → max_backoff_delay < 2 * d → max_backoff_delay ≤ d * 2 ^ suc n
grown d n h = let step = power_step d n in rw step (grind (arith, power_pos n))

large_min : (a : ℕ) → max_backoff_delay ≤ a → max_backoff_delay ≡ min a max_backoff_delay
large_min a h = omega arith

grow-pos :
    (n d : ℕ)
    → 2 * d ≤ max_int64
    → capped (grow n (pos d)) ≡ pos (min (d * 2 ^ n) max_backoff_delay)
unfolding grow
grow-pos zero d h = ground arith
grow-pos (suc n) d h =
    let twice = double-pos d h in
    rw twice (ground (arith, grow-pos n (2 * d), grown d n, power_step d n))

-- Without overflow, the delay before the n-th retry is the base delay doubled n - 1 times, and 60
-- seconds at most.
base_backoff-eq :
    (d retry : ℕ)
    → 2 * d ≤ max_int64
    → base_backoff (pos d) retry ≡ pos (min (d * 2 ^ (retry - 1)) max_backoff_delay)
unfolding base_backoff
base_backoff-eq d retry h = grow-pos (retry - 1) d h

-- Whatever the base delay, overflow included, the delay before jitter is 60 seconds at most.
pub base_backoff-le : (z : ℤ) (retry : ℕ) → base_backoff z retry ≤ℤ pos max_backoff_delay
unfolding base_backoff
base_backoff-le z retry = ground arith

-- A base delay of 2^62 nanoseconds or more overflows when it is doubled.
base_backoff-overflows :
    (d : ℕ)
    → max_int64 < 2 * d
    → d ≤ max_int64
    → (pos_part (base_backoff (pos d) 2) ≡ 0)
      × (1 ≤ neg_part (base_backoff (pos d) 2))
      × (neg_part (base_backoff (pos d) 2) ≤ max_int64 + 1)
unfolding base_backoff wrap64
base_backoff-overflows d h k = ground arith

wrapped-outside :
    (z j : ℤ)
    → (pos_part z ≡ 0) × (1 ≤ neg_part z) × (neg_part z ≤ max_int64 + 1)
    → (pos_part j ≤ pos_part z / 5) × (neg_part j ≤ neg_part z / 5)
    → (wrap64 (sub_ℕ (pos_part z + pos_part j) (neg_part z + neg_part j)) <ℤ pos 0)
      ⊎ (pos 66_000_000_000 <ℤ wrap64 (sub_ℕ (pos_part z + pos_part j) (neg_part z + neg_part j)))
unfolding wrap64
wrapped-outside z j h k = ground arith

module _ (jitter : ℤ → ℤ) where
  module _
      -- rand.Float64 is in [0, 1), so a tenth of it times the delay is at most a tenth of the delay
      (fraction : (d : ℕ) → (pos 0 ≤ℤ jitter (pos d)) × (jitter (pos d) ≤ℤ pos (d / 10))) where
    -- Where twice the base delay is an int64, a retry waits at least the base delay doubled for each
    -- retry before it, or 60 s if that is less, and at most a tenth longer, so never over 66 s.
    pub backoff_bounds :
        (d retry : ℕ)
        → 2 * d ≤ max_int64
        → (let m = min (d * 2 ^ (retry - 1)) max_backoff_delay in
            (pos m ≤ℤ backoff jitter (pos d) retry)
            × (backoff jitter (pos d) retry ≤ℤ pos (m + m / 10))
            × (backoff jitter (pos d) retry ≤ℤ pos 66_000_000_000))
    unfolding backoff wrap64
    backoff_bounds d retry h =
        let delay = base_backoff-eq d retry h in
        let m = min (d * 2 ^ (retry - 1)) max_backoff_delay in
        rw (delay, backoff) (ground (arith, fraction m))

  module _
      -- of a negative delay too, with room for the rounding of a float
      (fraction : (z : ℤ)
        → (pos_part (jitter z) ≤ pos_part z / 5) × (neg_part (jitter z) ≤ neg_part z / 5)) where
    -- Where twice the base delay is no int64 (2^62 nanoseconds or more), the second backoff is
    -- negative, or longer than 66 s.
    pub backoff_overflow :
        (d : ℕ)
        → max_int64 < 2 * d
        → d ≤ max_int64
        → (backoff jitter (pos d) 2 <ℤ pos 0) ⊎ (pos 66_000_000_000 <ℤ backoff jitter (pos d) 2)
    unfolding backoff
    backoff_overflow d h k =
        let over = base_backoff-overflows d h k in
        wrapped-outside (base_backoff (pos d) 2) (jitter (base_backoff (pos d) 2)) over
          (fraction (base_backoff (pos d) 2))
