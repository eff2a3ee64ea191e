-- ===== src/Client/Gwaihir.antt =====
-- internal/client/gwaihir: the Wake-on-LAN client. What the network does in each attempt, and
-- whether a backoff is slept through, is an argument; JSON decoding of a reply is a parameter.
pub mod Backoff
pub mod Handling
pub mod Retry
pub mod Attempts
pub mod Outcome
pub mod Calls
use smaug.Prelude.{
  ℕ, zero, suc, ◌+◌, ◌-◌, ℤ, pos, Str, ltb, leb, ltb_ℤ, leb_ℤ, ◌==◌, is_empty, Bool, true, false,
  not, ◌&&◌, ◌||◌, List, [], ◌∷◌, Option, none, some, if◌then◌else◌, pos_part,
}

pub data WolError : Type 0 where
  invalid_input internal_error network_error interrupted : WolError
  authentication_failed machine_not_found wol_request_failed : ℕ → Option Str → WolError

-- What one POST to the service meets: the request cannot be built or sent, no response comes, the
-- body of a response cannot be read, or the response is complete.
pub data Wire : Type 0 where
  unmarshalled uncreated unanswered : Wire
  unread : ℕ → Wire
  answered : ℕ → Str → Wire

-- io.LimitReader(body, n)
unfoldable pub limit_reader : ℕ → Str → Str
limit_reader zero s = []
limit_reader (suc n) [] = []
limit_reader (suc n) (c ∷ s) = c ∷ limit_reader n s

abbrev pub max_response_body_size : ℕ
max_response_body_size = 1048576

-- executeWoLRequest with its helpers: the status, the body and the error.
unfoldable pub execute_wol_request : Wire → ℕ × Str × Option WolError
execute_wol_request Wire.unmarshalled = (0, [], some WolError.internal_error)
execute_wol_request Wire.uncreated = (0, [], some WolError.network_error)
execute_wol_request Wire.unanswered = (0, [], some WolError.network_error)
execute_wol_request (Wire.unread status) = (status, [], some WolError.network_error)
execute_wol_request (Wire.answered status body) =
    (status, limit_reader max_response_body_size body, none)

unfoldable pub is_success_status : ℕ → Bool
is_success_status status = leb 200 status && ltb status 300

unfoldable pub is_non_retryable_status : ℕ → Bool
is_non_retryable_status status = leb 400 status && ltb status 500

pub record RetryConfig : Type 0 where
  pub max_attempts : ℤ
  pub base_delay : ℤ

abbrev pub new_retry_config : RetryConfig
new_retry_config = record { max_attempts = pos 3; base_delay = pos 1_000_000_000 }

pub data ConfigError : Type 0 where
  invalid_retry_config empty_base_url invalid_base_url empty_api_key : ConfigError
  invalid_timeout nil_logger : ConfigError

unfoldable pub validate_retry_config : RetryConfig → Option ConfigError
validate_retry_config r =
    if ltb_ℤ r.max_attempts (pos 1)
    then some ConfigError.invalid_retry_config
    else if leb_ℤ r.base_delay (pos 0)
    then some ConfigError.invalid_retry_config
    else none

pub record ClientConfig : Type 0 where
  pub base_url : Str
  pub api_key : Str
  pub timeout : ℤ
  pub retry_config : RetryConfig

-- One attempt as the world answers it: whether the wait before it runs to its end, and the request.
pub record Round : Type 0 where
  pub slept : Bool
  pub wire : Wire

-- What SendWoL returns (`none` is a nil error) and how many requests it has made.
pub record Sent : Type 0 where
  pub result : Option WolError
  pub requests : ℕ

module _ (parse_url : Str → Bool) where
  -- `validate`; `logger` tells whether a logger is given.
  unfoldable pub validate : ClientConfig → Bool → Option ConfigError
  validate c logger =
      if is_empty c.base_url
      then some ConfigError.empty_base_url
      else if not (parse_url c.base_url)
      then some ConfigError.invalid_base_url
      else if is_empty c.api_key
      then some ConfigError.empty_api_key
      else if leb_ℤ c.timeout (pos 0)
      then some ConfigError.invalid_timeout
      else if not logger
      then some ConfigError.nil_logger
      else none

  -- NewClient: the first error, or `none` where it returns a client with this configuration.
  unfoldable pub new_client : ClientConfig → Bool → Option ConfigError
  unfolding validate_retry_config validate
  new_client c logger = elim (validate_retry_config c.retry_config) [
    | some e ↦ some e
    | none ↦ validate c logger
  ]

module _ (unmarshal : Str → Option Str) where
  -- handleWoLResponse and the handlers that it calls: each error carries the service's message if
  -- the body parses.
  unfoldable pub handle_wol_response : ℕ → Str → Option WolError
  handle_wol_response status body =
      if status == 401
      then some (WolError.authentication_failed status (unmarshal body))
      else if status == 404
      then some (WolError.machine_not_found status (unmarshal body))
      else if ltb status 200 || leb 300 status
      then some (WolError.wol_request_failed status (unmarshal body))
      else none

  -- After the last attempt.
  unfoldable pub give_up : Option WolError → ℕ → Str → Option WolError
  give_up none status body = handle_wol_response status body
  give_up (some e) status body = if status == 0 then some e else handle_wol_response status body

  -- The loop of sendWithRetry with `left` attempts to go, from attempt number `attempt` on.
  unfoldable pub retry_loop : (ℕ → Round) → ℕ → ℕ → Option WolError → ℕ → Str → Sent
  retry_loop env zero attempt last_err status body = record {
    result = give_up last_err status body;
    requests = 0;
  }
  retry_loop env (suc left) attempt last_err status body =
      let (status', body', err) = execute_wol_request (env attempt).wire in
      let more = λ (e : WolError).
        let rest = retry_loop env left (attempt + 1) (some e) status' body' in
        record rest { requests = rest.requests + 1 } in
      if ltb 1 attempt && not (env attempt).slept
      then record { result = some WolError.interrupted; requests = 0 }
      else elim err [
        | some e ↦ more e
        | none ↦ elim (is_success_status status' || is_non_retryable_status status') [
          | true ↦ record { result = handle_wol_response status' body'; requests = 1 }
          | false ↦ more (WolError.wol_request_failed status' none)
        ]
      ]

  -- A negative number of attempts makes no round.
  unfoldable pub send_with_retry : RetryConfig → (ℕ → Round) → Sent
  send_with_retry r env = retry_loop env (pos_part r.max_attempts) 1 none 0 []

  unfoldable pub send_wol : RetryConfig → (ℕ → Round) → Str → Sent
  send_wol r env machine_id =
      if is_empty machine_id
      then record { result = some WolError.invalid_input; requests = 0 }
      else send_with_retry r env
