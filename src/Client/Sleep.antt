-- ===== src/Client/Sleep.antt =====
-- internal/client/sleep: the client that sends a sleep command. Parsing of URLs and addresses, the
-- comparisons that ignore case and what the HTTP client returns are arguments.
pub mod Handling
use smaug.Prelude.{
  ℕ, ltb, leb, ℤ, pos, leb_ℤ, Str, str, str_eq, is_empty, Bool, true, false, not, ◌&&◌, ◌||◌, ◌++◌,
  Option, none, some, if◌then◌else◌,
}

pub data SleepError : Type 0 where
  empty_endpoint invalid_endpoint ssrf_attempt invalid_timeout nil_logger network_error : SleepError
  sleep_request_failed : ℕ → SleepError

abbrev pub default_timeout : ℤ
default_timeout = pos 10_000_000_000

pub record SleepConfig : Type 0 where
  pub endpoint : Str
  pub timeout : ℤ
  pub auth_token : Str

unfoldable pub new_client_config : Str → SleepConfig
new_client_config endpoint = record {
  endpoint = endpoint;
  timeout = default_timeout;
  auth_token = str "";
}

-- What url.Parse and net.ParseIP give.
pub record Url : Type 0 where
  pub scheme : Str
  pub hostname : Str

pub record Ip : Type 0 where
  pub is_loopback : Bool
  pub is_unspecified : Bool

-- The functions of Go's library.
pub record NetLib : Type 0 where
  pub parse : Str → Option Url
  pub parse_ip : Str → Option Ip
  pub to_lower : Str → Str
  pub equal_fold : Str → Str → Bool

module _ (net : NetLib) where
  unfoldable pub is_loopback_or_localhost : Str → Bool
  is_loopback_or_localhost host =
      if net.equal_fold host (str "localhost")
      then true
      else elim (net.parse_ip host) [ none ↦ false | some ip ↦ ip.is_loopback || ip.is_unspecified ]

  unfoldable pub validate_endpoint : Str → Option SleepError
  validate_endpoint endpoint = elim (net.parse endpoint) [
    | none ↦ some SleepError.invalid_endpoint
    | some parsed ↦
        let scheme = net.to_lower parsed.scheme in
        if not (str_eq scheme (str "http")) && not (str_eq scheme (str "https"))
        then some SleepError.invalid_endpoint
        else if is_loopback_or_localhost parsed.hostname
        then some SleepError.ssrf_attempt
        else none
  ]

  unfoldable pub validate_config : SleepConfig → Bool → Option SleepError
  validate_config config logger =
      if is_empty config.endpoint
      then some SleepError.empty_endpoint
      else elim (validate_endpoint config.endpoint) [
        | some e ↦ some e
        | none ↦
            if leb_ℤ config.timeout (pos 0)
            then some SleepError.invalid_timeout
            else if not logger
            then some SleepError.nil_logger
            else none
      ]

-- The request that Sleep sends.
pub record SleepRequest : Type 0 where
  pub url : Str
  pub authorization : Option Str

pub data SleepReply : Type 0 where
  not_built no_response : SleepReply
  answered : ℕ → SleepReply

-- A client holds what its configuration gives.
unfoldable pub sleep_request : SleepConfig → SleepRequest
sleep_request c = record {
  url = c.endpoint;
  authorization = if is_empty c.auth_token then none else some (str "Basic " ++ c.auth_token);
}

unfoldable pub send_sleep : (SleepRequest → SleepReply) → SleepConfig → Option SleepError
send_sleep exchange c = elim (exchange (sleep_request c)) [
  | SleepReply.not_built ↦ some SleepError.network_error
  | SleepReply.no_response ↦ some SleepError.network_error
  | SleepReply.answered status ↦
      if ltb status 200 || leb 300 status
      then some (SleepError.sleep_request_failed status)
      else none
]
