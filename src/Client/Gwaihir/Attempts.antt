-- ===== src/Client/Gwaihir/Attempts.antt =====
-- How many requests SendWoL makes, and what it returns after them.
use smaug.Prelude.{
  ℕ, zero, suc, ◌+◌, ◌≤◌, ◌<◌, ◌==◌, pos, pos_part, Str, true, false, [], Option, none, some, ◌≡◌,
  refl, ◌∙◌, arith, if◌then◌else◌,
}
use smaug.Client.Gwaihir.{
  WolError, Round, Sent, RetryConfig, handle_wol_response, give_up, retry_loop, send_with_retry,
}
use smaug.Client.Gwaihir.Retry.{
  is_decisive, status_of, body_of, failure_of, IsReady, loop_stops, loop_goes_on, loop_interrupted,
}

module _ (env : ℕ → Round) where
  -- The first k rounds from `n` on are all made and decide nothing.
  abbrev pub Fruitless : ℕ → ℕ → Type 0
  Fruitless zero n = Unit {0}
  Fruitless (suc k) n = IsReady env n × (is_decisive (env n).wire ≡ false) × Fruitless k (n + 1)

-- The k-th round from `n` on, counted from 0.
abbrev round_at : ℕ → ℕ → ℕ
round_at zero n = n
round_at (suc k) n = round_at k (n + 1)

round_at-eq : (k n : ℕ) → round_at k n ≡ n + k
round_at-eq zero n = omega arith
round_at-eq (suc k) n = omega (arith, round_at-eq k (n + 1))

round_at-one : (k : ℕ) → round_at k 1 ≡ suc k
round_at-one k = omega (arith, round_at-eq k 1)

abbrev bump : Sent → Sent
bump s = record s { requests = s.requests + 1 }

count_one :
    (s : Sent) (r : Option WolError) (k : ℕ)
    → s ≡ record { result = r; requests = k }
    → bump s ≡ record { result = r; requests = suc k }
count_one s r k e = ground arith

loop_ends :
    (unmarshal : Str → Option Str) (env : ℕ → Round) (n : ℕ) (last : Option WolError) (status : ℕ)
    (body : Str)
    → retry_loop unmarshal env zero n last status body
      ≡ record { result = give_up unmarshal last status body; requests = 0 }
unfolding retry_loop
loop_ends unmarshal env n last status body = refl

module _ (unmarshal : Str → Option Str) (env : ℕ → Round) where
  loop_decides :
      (k left n : ℕ) (last : Option WolError) (status : ℕ) (body : Str)
      → 1 ≤ n
      → k < left
      → Fruitless env k n
      → IsReady env (round_at k n)
      → is_decisive (env (round_at k n)).wire ≡ true
      → let w = (env (round_at k n)).wire in
        retry_loop unmarshal env left n last status body ≡ record {
          result = handle_wol_response unmarshal (status_of w) (body_of w);
          requests = suc k;
        }
  loop_decides k zero n last status body first lt f ready h = absurd (omega arith)
  loop_decides zero (suc left) n last status body first lt f ready h =
      loop_stops unmarshal env left n last status body first ready h
  loop_decides (suc k) (suc left) n last status body first lt f ready h =
      let w = (env n).wire in
      loop_goes_on unmarshal env left n last status body first f.0 f.1
      ∙ count_one _ _ (suc k) (
          loop_decides k left (n + 1) (some (failure_of w)) (status_of w) (body_of w) (omega arith)
            (omega arith) f.2 ready h)

  loop_breaks_off :
      (k left n : ℕ) (last : Option WolError) (status : ℕ) (body : Str)
      → 1 ≤ n
      → k < left
      → Fruitless env k n
      → 1 < round_at k n
      → (env (round_at k n)).slept ≡ false
      → retry_loop unmarshal env left n last status body
        ≡ record { result = some WolError.interrupted; requests = k }
  loop_breaks_off k zero n last status body first lt f later h = absurd (omega arith)
  loop_breaks_off zero (suc left) n last status body first lt f later h =
      loop_interrupted unmarshal env left n last status body later h
  loop_breaks_off (suc k) (suc left) n last status body first lt f later h =
      let w = (env n).wire in
      loop_goes_on unmarshal env left n last status body first f.0 f.1
      ∙ count_one _ _ k (
          loop_breaks_off k left (n + 1) (some (failure_of w)) (status_of w) (body_of w)
            (omega arith) (omega arith) f.2 later h)

  loop_exhausts :
      (left n : ℕ) (last : Option WolError) (status : ℕ) (body : Str)
      → 1 ≤ n
      → Fruitless env (suc left) n
      → let w = (env (round_at left n)).wire in
        retry_loop unmarshal env (suc left) n last status body ≡ record {
          result = give_up unmarshal (some (failure_of w)) (status_of w) (body_of w);
          requests = suc left;
        }
  loop_exhausts zero n last status body first f =
      loop_goes_on unmarshal env zero n last status body first f.0 f.1
      ∙ count_one _ _ zero (
          loop_ends unmarshal env (n + 1) (some (failure_of (env n).wire)) (status_of (env n).wire)
            (body_of (env n).wire))
  loop_exhausts (suc left) n last status body first f =
      let w = (env n).wire in
      loop_goes_on unmarshal env (suc left) n last status body first f.0 f.1
      ∙ count_one _ _ (suc left) (
          loop_exhausts left (n + 1) (some (failure_of w)) (status_of w) (body_of w) (omega arith)
            f.2)

module _ (unmarshal : Str → Option Str) (env : ℕ → Round) (r : RetryConfig) where
  -- The first complete 2xx or 4xx response, in round k + 1 with k below the maximum, ends the loop:
  -- its status is reported, k + 1 requests were made, and none follows.
  pub send_with_retry-decides :
      (k : ℕ)
      → k < pos_part r.max_attempts
      → Fruitless env k 1
      → IsReady env (suc k)
      → is_decisive (env (suc k)).wire ≡ true
      → send_with_retry unmarshal r env ≡ record {
        result =
            handle_wol_response unmarshal
              (status_of (env (suc k)).wire)
              (body_of (env (suc k)).wire);
        requests = suc k;
      }
  unfolding send_with_retry
  send_with_retry-decides k lt f ready h =
      let at_k = round_at-one k in
      rw at_k at (
        loop_decides unmarshal env k (pos_part r.max_attempts) 1 none 0 [] (omega arith) lt f
          (rw at_k ready) (rw at_k h))

  -- A wait that is cut off before round k + 2 ends the loop with k + 1 requests made.
  pub send_with_retry-breaks_off :
      (k : ℕ)
      → suc k < pos_part r.max_attempts
      → Fruitless env (suc k) 1
      → (env (suc (suc k))).slept ≡ false
      → send_with_retry unmarshal r env
        ≡ record { result = some WolError.interrupted; requests = suc k }
  unfolding send_with_retry
  send_with_retry-breaks_off k lt f h =
      let at_k = round_at-one (suc k) in
      loop_breaks_off unmarshal env (suc k) (pos_part r.max_attempts) 1 none 0 [] (omega arith) lt f
        (rw at_k (omega arith)) (rw at_k h)

  -- With no decisive response and no wait cut off, every attempt is made, and the last round's
  -- status is reported, or its error if it has none.
  pub send_with_retry-exhausts :
      (n : ℕ)
      → r.max_attempts ≡ pos (suc n)
      → Fruitless env (suc n) 1
      → let w = (env (suc n)).wire in
        send_with_retry unmarshal r env ≡ record {
          result =
              if status_of w == 0
              then some (failure_of w)
              else handle_wol_response unmarshal (status_of w) (body_of w);
          requests = suc n;
        }
  unfolding send_with_retry give_up
  send_with_retry-exhausts n e f =
      let at_n = round_at-one n in
      rw e (rw at_n at (loop_exhausts unmarshal env n 1 none 0 [] (omega arith) f))
