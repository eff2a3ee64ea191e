-- ===== src/Client/Gwaihir/Handling.antt =====
-- Which configurations give a client, and what each status of the service is reported as.
use smaug.Prelude.{
  ℕ, ◌≤◌, ◌<◌, pos, ◌≤ℤ◌, Str, is_empty, Bool, true, false, [], ◌∷◌, Option, none, some, ◌≡◌, ◌≢◌,
  ◌↔◌, ◌⊎◌, arith,
}
use smaug.Client.Gwaihir.{WolError, ClientConfig, new_client, handle_wol_response}

is_empty-false : (s : Str) → (is_empty s ≡ false) ↔ (s ≢ [])
is_empty-false [] = ground arith
is_empty-false (c ∷ s) = ground arith

-- NewClient gives a client exactly if the base URL is there and parses, an API key and a logger
-- are there, the timeout and the base delay are positive, and there is at least one attempt.
pub new_client_iff :
    (parse_url : Str → Bool) (c : ClientConfig) (logger : Bool)
    → (new_client parse_url c logger ≡ none) ↔ (
        (c.base_url ≢ [])
        × (parse_url c.base_url ≡ true)
        × (c.api_key ≢ [])
        × (pos 1 ≤ℤ c.timeout)
        × (logger ≡ true)
        × (pos 1 ≤ℤ c.retry_config.max_attempts)
        × (pos 1 ≤ℤ c.retry_config.base_delay))
unfolding new_client
new_client_iff parse_url c logger =
    ground (arith, is_empty-false c.base_url, is_empty-false c.api_key)

-- The kinds of error that SendWoL's documentation tells apart, with `none` for success.
pub data Kind : Type 0 where
  ok bad_key unknown_machine refused : Kind

abbrev pub kind_of : Option WolError → Option Kind
kind_of none = some Kind.ok
kind_of (some (WolError.authentication_failed s m)) = some Kind.bad_key
kind_of (some (WolError.machine_not_found s m)) = some Kind.unknown_machine
kind_of (some (WolError.wol_request_failed s m)) = some Kind.refused
kind_of (some e) = none

-- Each status has one report: 2xx is success, 401 a bad key, 404 an unknown machine, and any other
-- status a refused request.
pub handle_wol_response_kinds :
    (unmarshal : Str → Option Str) (status : ℕ) (body : Str)
    → let report = kind_of (handle_wol_response unmarshal status body) in
      ((report ≡ some Kind.ok) ↔ ((200 ≤ status) × (status < 300)))
      × ((report ≡ some Kind.bad_key) ↔ (status ≡ 401))
      × ((report ≡ some Kind.unknown_machine) ↔ (status ≡ 404))
      × ((report ≡ some Kind.refused)
          ↔ (((status < 200) ⊎ (300 ≤ status)) × (status ≢ 401) × (status ≢ 404)))
unfolding handle_wol_response
handle_wol_response_kinds unmarshal status body = ground arith
