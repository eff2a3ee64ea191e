-- ===== src/Tests/Wol.antt =====
-- The Wake-on-LAN client against a service that answers 500, 200, and cuts a wait off.
use Prim.Native.Nat.{min}
use smaug.Prelude.{
  ◌≤◌, ◌+◌, ◌/◌, pos_part, neg_part, ◌⊎◌, ℕ, zero, suc, ◌^◌, ◌*◌, ◌-◌, ℤ, pos, ◌≤ℤ◌, ◌<ℤ◌, Str, str,
  true, false, [], Option, none, some, ◌≡◌, refl, inl, inr, arith,
}
use smaug.Client.Gwaihir.{
  WolError, Wire, Round, RetryConfig, ClientConfig, new_retry_config, handle_wol_response,
  send_with_retry, send_wol, execute_wol_request, is_success_status, is_non_retryable_status,
  limit_reader, retry_loop,
}
use smaug.Client.Gwaihir.Attempts.{send_with_retry-decides, send_with_retry-exhausts}
use smaug.Client.Gwaihir.Backoff.{backoff, max_backoff_delay, backoff_overflow, backoff_bounds}

abbrev no_json : Str → Option Str
no_json s = none

abbrev retry : RetryConfig
retry = new_retry_config

-- The first attempt meets a 500, later ones a 200.
abbrev recovers : ℕ → Round
recovers (suc zero) = record { slept = true; wire = Wire.answered 500 [] }
recovers n = record { slept = true; wire = Wire.answered 200 [] }

-- The first attempt meets a 500, and the wait after it is cut off.
abbrev cut_off : ℕ → Round
cut_off (suc zero) = record { slept = true; wire = Wire.answered 500 [] }
cut_off n = record { slept = false; wire = Wire.answered 200 [] }

-- Nothing answers.
abbrev dead : ℕ → Round
dead n = record { slept = true; wire = Wire.unanswered }

send_with_retry-decides_example :
    send_with_retry no_json retry recovers
    ≡ record { result = handle_wol_response no_json 200 []; requests = 2 }
unfolding limit_reader
send_with_retry-decides_example =
    send_with_retry-decides no_json recovers retry 1 (omega arith) (inl refl, refl, tt) (inr refl)
      refl

send_with_retry-exhausts_example :
    send_with_retry no_json retry dead
    ≡ record { result = some WolError.network_error; requests = 3 }
send_with_retry-exhausts_example =
    send_with_retry-exhausts no_json dead retry 2 refl
      (inl refl, refl, (inr refl, refl, (inr refl, refl, tt)))

recovers-ok : (send_wol no_json retry recovers (str "m1")).result ≡ none
unfolding send_wol send_with_retry retry_loop execute_wol_request is_success_status
    is_non_retryable_status limit_reader handle_wol_response
recovers-ok = refl

abbrev no_jitter : ℤ → ℤ
no_jitter z = pos 0

abbrev third_delay : ℕ
third_delay = min (1_000_000_000 * 2 ^ (3 - 1)) max_backoff_delay

backoff_bounds_example :
    (pos third_delay ≤ℤ backoff no_jitter (pos 1_000_000_000) 3)
    × (backoff no_jitter (pos 1_000_000_000) 3 ≤ℤ pos (third_delay + third_delay / 10))
    × (backoff no_jitter (pos 1_000_000_000) 3 ≤ℤ pos 66_000_000_000)
backoff_bounds_example =
    backoff_bounds no_jitter (λ d. (omega arith, omega arith)) 1_000_000_000 3 (omega arith)

no_jitter-fraction :
    (z : ℤ) → (pos_part (no_jitter z) ≤ pos_part z / 5) × (neg_part (no_jitter z) ≤ neg_part z / 5)
no_jitter-fraction z = (omega arith, omega arith)

backoff_overflow_example :
    (backoff no_jitter (pos 4_611_686_018_427_387_904) 2 <ℤ pos 0)
    ⊎ (pos 66_000_000_000 <ℤ backoff no_jitter (pos 4_611_686_018_427_387_904) 2)
backoff_overflow_example =
    backoff_overflow no_jitter no_jitter-fraction 4_611_686_018_427_387_904 (omega arith)
      (omega arith)

abbrev client : ClientConfig
client = record {
  base_url = str "http://gwaihir";
  api_key = str "k";
  timeout = pos 5;
  retry_config = retry;
}
