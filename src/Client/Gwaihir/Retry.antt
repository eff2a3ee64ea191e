-- ===== src/Client/Gwaihir/Retry.antt =====
-- How one round of the retry loop goes on, and where the loop ends.
use smaug.Prelude.{
  ℕ, suc, ◌+◌, ◌≤◌, ◌<◌, ltb, leb, Str, Bool, true, false, ◌&&◌, ◌||◌, [], Option, none, some, ◌≡◌,
  ◌⊎◌, arith,
}
use smaug.Client.Gwaihir.{
  WolError, Wire, Round, Sent, limit_reader, max_response_body_size, execute_wol_request,
  is_success_status, is_non_retryable_status, handle_wol_response, retry_loop,
}

-- A complete response with a 2xx or a 4xx status decides the request.
abbrev pub is_decisive : Wire → Bool
is_decisive (Wire.answered s b) = leb 200 s && ltb s 300 || leb 400 s && ltb s 500
is_decisive _ = false

-- The status that a request met, 0 where there was no response.
abbrev pub status_of : Wire → ℕ
status_of (Wire.unread s) = s
status_of (Wire.answered s b) = s
status_of _ = 0

abbrev pub body_of : Wire → Str
body_of (Wire.answered s b) = limit_reader max_response_body_size b
body_of _ = []

-- The error of a round that decides nothing.
abbrev pub failure_of : Wire → WolError
failure_of Wire.unmarshalled = WolError.internal_error
failure_of (Wire.answered s b) = WolError.wol_request_failed s none
failure_of _ = WolError.network_error

-- The wait before round `n`, which only the first does without, runs to its end.
abbrev pub IsReady : (ℕ → Round) → ℕ → Type 0
IsReady env n = (n ≡ 1) ⊎ ((env n).slept ≡ true)

abbrev bump : Sent → Sent
bump s = record s { requests = s.requests + 1 }

module _ (unmarshal : Str → Option Str) (env : ℕ → Round) where
  module _ (left n : ℕ) (last : Option WolError) (status : ℕ) (body : Str) where
    abbrev here : Sent
    here = retry_loop unmarshal env (suc left) n last status body

    pub loop_stops :
        1 ≤ n
        → IsReady env n
        → is_decisive (env n).wire ≡ true
        → here ≡ record {
          result = handle_wol_response unmarshal (status_of (env n).wire) (body_of (env n).wire);
          requests = 1;
        }
    unfolding retry_loop execute_wol_request is_success_status is_non_retryable_status
    loop_stops first ready h = ground arith

    pub loop_goes_on :
        1 ≤ n
        → IsReady env n
        → is_decisive (env n).wire ≡ false
        → here
          ≡ bump (
              retry_loop unmarshal env left
                (n + 1)
                (some (failure_of (env n).wire))
                (status_of (env n).wire)
                (body_of (env n).wire))
    unfolding retry_loop execute_wol_request is_success_status is_non_retryable_status
    loop_goes_on first ready h = ground arith

    pub loop_interrupted :
        1 < n
        → (env n).slept ≡ false
        → here ≡ record { result = some WolError.interrupted; requests = 0 }
    unfolding retry_loop
    loop_interrupted later h = ground arith

    -- A round ends the loop by its response, goes on, or is never made.
    pub loop_cases :
        1 ≤ n
        → ((is_decisive (env n).wire ≡ true)
            × (here ≡ record {
              result =
                  handle_wol_response unmarshal (status_of (env n).wire) (body_of (env n).wire);
              requests = 1;
            }))
          ⊎ ((here
                ≡ bump (
                    retry_loop unmarshal env left
                      (n + 1)
                      (some (failure_of (env n).wire))
                      (status_of (env n).wire)
                      (body_of (env n).wire)))
              ⊎ (here ≡ record { result = some WolError.interrupted; requests = 0 }))
    unfolding retry_loop execute_wol_request is_success_status is_non_retryable_status
    loop_cases first = ground arith
