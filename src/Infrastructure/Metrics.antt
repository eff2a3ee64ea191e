-- ===== src/Infrastructure/Metrics.antt =====
-- internal/infrastructure/metrics: what is registered and what is recorded. The Prometheus library
-- is an interface: `none` is an error of Register, or a panic of WithLabelValues. The durations that
-- are observed are left out.
pub mod Registering
use smaug.Prelude.{
  ℕ, Str, str, str_eq, Bool, true, false, List, [], ◌∷◌, ◌++◌, Option, none, some, ◌≡◌, ◌↔◌, ◌⊎◌,
  inl, inr, refl, ap, ◌∙◌, arith, if◌then◌else◌, ◌==◌, In, Distinct, Option-cases,
}

pub record Prometheus (S : Type 0) : Type 0 where
  pub register : Str → S → Option S
  pub inc : Str → List Str → S → Option S
  pub observe : Str → List Str → S → Option S
  pub set : Str → List Str → ℕ → S → Option S

-- The names of the collectors that New registers, in order.
abbrev pub request_names : List Str
request_names =
    str "smaug_requests_total"
    ∷ str "smaug_request_duration_seconds"
    ∷ str "smaug_requests_by_status_total"
    ∷ str "smaug_requests_by_method_total"
    ∷ []

abbrev pub power_names : List Str
power_names =
    str "smaug_wake_attempts_total"
    ∷ str "smaug_server_awake"
    ∷ str "smaug_health_check_failures_total"
    ∷ str "smaug_sleep_triggered_total"
    ∷ []

abbrev pub config_names : List Str
config_names = str "smaug_config_reload_total" ∷ []

abbrev pub gwaihir_names : List Str
gwaihir_names = str "smaug_gwaihir_api_duration_seconds" ∷ str "smaug_gwaihir_api_calls_total" ∷ []

abbrev pub success_label : Bool → Str
success_label true = str "true"
success_label false = str "false"

-- statusCodeToString
abbrev known_statuses : List (ℕ × Str)
known_statuses =
    (200, str "200")
    ∷ (201, str "201")
    ∷ (204, str "204")
    ∷ (301, str "301")
    ∷ (302, str "302")
    ∷ (304, str "304")
    ∷ (400, str "400")
    ∷ (401, str "401")
    ∷ (403, str "403")
    ∷ (404, str "404")
    ∷ (409, str "409")
    ∷ (429, str "429")
    ∷ (500, str "500")
    ∷ (502, str "502")
    ∷ (503, str "503")
    ∷ (504, str "504")
    ∷ []

unfoldable pub label_of : List (ℕ × Str) → ℕ → Str
label_of [] code = str "other"
label_of ((n, label) ∷ rest) code = if code == n then label else label_of rest code

unfoldable pub status_code_to_string : ℕ → Str
unfolding label_of
status_code_to_string code = label_of known_statuses code

module _ {S : Type 0} (p : Prometheus S) where
  -- registerCollector for each; the first error ends it.
  unfoldable pub register_all : List Str → S → Option S
  register_all [] s = some s
  register_all (n ∷ ns) s = elim (p.register n s) [ none ↦ none | some t ↦ register_all ns t ]

  abbrev and_then : Option S → List Str → Option S
  and_then none ns = none
  and_then (some s) ns = register_all ns s

  -- New
  unfoldable pub new_registry : S → Option S
  unfolding register_all
  new_registry s =
      and_then (and_then (and_then (register_all request_names s) power_names) config_names)
        gwaihir_names

  -- The body of a method: its deferred recover keeps what was recorded before a panic.
  unfoldable pub perform : List (S → Option S) → S → S
  perform [] s = s
  perform (op ∷ ops) s = elim (op s) [ none ↦ s | some t ↦ perform ops t ]

  -- The methods; `receiver` tells whether the receiver is not nil.
  abbrev if_there : Bool → List (S → Option S) → S → S
  if_there receiver ops s = if receiver then perform ops s else s

  unfoldable pub record_request : Bool → Str → ℕ → S → S
  unfolding perform
  record_request receiver method status = if_there receiver (
      p.inc (str "smaug_requests_total") []
      ∷ p.observe (str "smaug_request_duration_seconds") []
      ∷ p.inc (str "smaug_requests_by_status_total") (status_code_to_string status ∷ [])
      ∷ p.inc (str "smaug_requests_by_method_total") (method ∷ [])
      ∷ [])

  unfoldable pub record_wake_attempt : Bool → Str → Bool → S → S
  unfolding perform
  record_wake_attempt receiver server ok =
      if_there receiver
        (p.inc (str "smaug_wake_attempts_total") (server ∷ success_label ok ∷ []) ∷ [])

  unfoldable pub set_server_awake : Bool → Str → Bool → S → S
  unfolding perform
  set_server_awake receiver server awake =
      if_there receiver
        (p.set (str "smaug_server_awake") (server ∷ []) (if awake then 1 else 0) ∷ [])

  unfoldable pub record_health_check_failure : Bool → Str → Str → S → S
  unfolding perform
  record_health_check_failure receiver server reason =
      if_there receiver
        (p.inc (str "smaug_health_check_failures_total") (server ∷ reason ∷ []) ∷ [])

  unfoldable pub record_sleep_triggered : Bool → Str → S → S
  unfolding perform
  record_sleep_triggered receiver server =
      if_there receiver (p.inc (str "smaug_sleep_triggered_total") (server ∷ []) ∷ [])

  unfoldable pub record_config_reload : Bool → Bool → S → S
  unfolding perform
  record_config_reload receiver ok =
      if_there receiver (p.inc (str "smaug_config_reload_total") (success_label ok ∷ []) ∷ [])

  unfoldable pub record_api_call : Bool → Str → Bool → S → S
  unfolding perform
  record_api_call receiver operation ok = if_there receiver (
      p.observe (str "smaug_gwaihir_api_duration_seconds") (operation ∷ success_label ok ∷ [])
      ∷ p.inc (str "smaug_gwaihir_api_calls_total") (operation ∷ success_label ok ∷ [])
      ∷ [])
