-- ===== src/Client/Sleep/Handling.antt =====
-- Which configurations make a sleep client, and when a sleep command succeeds.
use smaug.Prelude.{
  ℕ, ◌≤◌, ◌<◌, pos, ◌<ℤ◌, Str, str, str_eq_iff, is_empty, Bool, true, false, none, some,
  Option-cases, ◌≡◌, ◌↔◌, ◌⊎◌, ◌≢◌, inl, inr, refl, arith,
}
use smaug.Client.Sleep.{
  SleepConfig, Url, NetLib, SleepRequest, SleepReply, is_loopback_or_localhost, validate_endpoint,
  validate_config, sleep_request, send_sleep,
}

module _ (net : NetLib) where
  -- An endpoint is accepted exactly if it parses, has the scheme http or https in any case of the
  -- letters, and names no loopback, unspecified or localhost address.
  validate_endpoint_iff :
      (endpoint : Str)
      → (validate_endpoint net endpoint ≡ none) ↔ (
          (u : Url) × (net.parse endpoint ≡ some u)
          × ((net.to_lower u.scheme ≡ str "http") ⊎ (net.to_lower u.scheme ≡ str "https"))
          × (is_loopback_or_localhost net u.hostname ≡ false))
  unfolding validate_endpoint
  validate_endpoint_iff endpoint = elim (Option-cases (net.parse endpoint)) [
    | inl fails ↦ ((λ c. ground arith), λ (u, e, s, l). ground arith)
    | inr (u, parses) ↦
        let http = str_eq_iff (net.to_lower u.scheme) (str "http") in
        let https = str_eq_iff (net.to_lower u.scheme) (str "https") in
        (
          (λ c. (u, parses, ground (arith, http, https), ground arith)),
          λ (v, e, s, l). ground (arith, http, https),
        )
  ]

  -- A client is made exactly from an endpoint that is not empty, parses, has the scheme http or
  -- https and names no loopback, unspecified or localhost address, with a positive timeout and a
  -- logger.
  pub validate_config_iff :
      (c : SleepConfig) (logger : Bool)
      → (validate_config net c logger ≡ none) ↔ (
          (is_empty c.endpoint ≡ false)
          × ((u : Url) × (net.parse c.endpoint ≡ some u)
              × ((net.to_lower u.scheme ≡ str "http") ⊎ (net.to_lower u.scheme ≡ str "https"))
              × (is_loopback_or_localhost net u.hostname ≡ false))
          × (pos 0 <ℤ c.timeout)
          × (logger ≡ true))
  unfolding validate_config
  validate_config_iff c logger = ground (arith, validate_endpoint_iff c.endpoint)

SleepReply-cases :
    (r : SleepReply)
    → (((status : ℕ) → r ≢ SleepReply.answered status)
        × (r ≡ SleepReply.not_built ⊎ r ≡ SleepReply.no_response))
      ⊎ ((status : ℕ) × (r ≡ SleepReply.answered status))
SleepReply-cases SleepReply.not_built = inl ((λ status e. ground arith), inl refl)
SleepReply-cases SleepReply.no_response = inl ((λ status e. ground arith), inr refl)
SleepReply-cases (SleepReply.answered status) = inr (status, refl)

-- A sleep command succeeds exactly if the answer has a status from 200 to 299.
pub send_sleep_iff :
    (exchange : SleepRequest → SleepReply) (c : SleepConfig)
    → (send_sleep exchange c ≡ none) ↔ (
        (status : ℕ) × (exchange (sleep_request c) ≡ SleepReply.answered status)
        × (200 ≤ status)
        × (status < 300))
unfolding send_sleep
send_sleep_iff exchange c = elim (SleepReply-cases (exchange (sleep_request c))) [
  | inl (unanswered, inl r) ↦ ((λ o. ground arith), λ (s, e, l, h). absurd (unanswered s e))
  | inl (unanswered, inr r) ↦ ((λ o. ground arith), λ (s, e, l, h). absurd (unanswered s e))
  | inr (status, r) ↦ ((λ o. (status, r, ground arith, ground arith)), λ (s, e, l, h). ground arith)
]
