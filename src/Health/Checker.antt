-- ===== src/Health/Checker.antt =====
-- internal/health/health.go and internal/health/server_health_checker.go: one check of one server.
-- What the HTTP client returns for a request is an argument.
use smaug.Prelude.{
  ℕ, ltb, leb, ℤ, Str, str, is_empty, Bool, true, false, ◌||◌, List, [], ◌∷◌, ◌++◌, Option, none,
  some, if◌then◌else◌, Time,
}
use smaug.Health.Store.{Sentinel, HealthError, ServerHealthStatus, InMemoryHealthStore, update}

abbrev pub default_max_redirects : ℕ
default_max_redirects = 3

-- CheckRedirect, on the number of requests made so far.
unfoldable pub check_redirect : ℕ → Option Sentinel
check_redirect via =
    if ltb default_max_redirects via then some Sentinel.health_check_too_many_redirects else none

pub record HealthChecker : Type 0 where
  pub endpoint : Str
  pub timeout : ℤ
  pub auth_token : Str

-- NewHealthChecker
abbrev pub new_health_checker : Str → ℤ → Str → HealthChecker
new_health_checker endpoint timeout auth_token = record {
  endpoint = endpoint;
  timeout = timeout;
  auth_token = auth_token;
}

pub record Request : Type 0 where
  pub url : Str
  pub authorization : Option Str

-- What comes of a request: it cannot be built, there is no response, or there is a status code.
pub data Reply : Type 0 where
  not_built no_response : Reply
  answered : ℕ → Reply

pub data Status : Type 0 where
  status_code : ℕ → Status
  refused : HealthError → Status

unfoldable pub validate_status_code : HealthChecker → ℕ → Option HealthError
validate_status_code h status =
    if ltb status 200 || leb 400 status
    then some (HealthError.unhealthy_status h.endpoint status)
    else none

unfoldable pub health_request : HealthChecker → Request
health_request h = record {
  url = h.endpoint;
  authorization = if is_empty h.auth_token then none else some (str "Basic " ++ h.auth_token);
}

module _ (exchange : Request → Reply) where
  unfoldable pub execute_health_request : HealthChecker → Status
  execute_health_request h = elim (exchange (health_request h)) [
    | Reply.not_built ↦ Status.refused (HealthError.network_error h.endpoint)
    | Reply.no_response ↦ Status.refused (HealthError.network_error h.endpoint)
    | Reply.answered status ↦ Status.status_code status
  ]

  unfoldable pub check_health : HealthChecker → Option HealthError
  check_health h =
      if is_empty h.endpoint
      then some HealthError.url_missing
      else elim (execute_health_request h) [
        | Status.refused e ↦ some e
        | Status.status_code status ↦ validate_status_code h status
      ]

-- The sentinel that an error wraps by `%w`; what it shows by `%v` is not wrapped.
unfoldable pub wrapped : HealthError → Sentinel
wrapped HealthError.url_missing = Sentinel.health_check_url_missing
wrapped (HealthError.network_error url) = Sentinel.health_check_network_error
wrapped (HealthError.unhealthy_status url status) = Sentinel.health_check_failed

-- The tests of getFailureReason by errors.Is, in order.
unfoldable pub reason_of : Sentinel → Str
reason_of Sentinel.deadline_exceeded = str "timeout"
reason_of Sentinel.health_check_network_error = str "network_error"
reason_of Sentinel.health_check_failed = str "unhealthy_status"
reason_of Sentinel.health_check_url_missing = str "missing_url"
reason_of Sentinel.health_check_too_many_redirects = str "too_many_redirects"

unfoldable pub get_failure_reason : Option HealthError → Str
get_failure_reason none = str "unknown"
get_failure_reason (some e) = reason_of (wrapped e)

pub record ServerHealthChecker : Type 0 where
  pub server_id : Str
  pub checker : HealthChecker
  pub metrics : Bool  -- whether a registry is set

-- What the checks share: the store, and the failures that the registry has counted.
pub record Shared : Type 0 where
  pub store : InMemoryHealthStore
  pub failures : List (Str × Str)

unfoldable pub record_health_check_failure :
    ServerHealthChecker → HealthError → List (Str × Str) → List (Str × Str)
record_health_check_failure s e failures =
    if s.metrics then failures ++ (s.server_id, get_failure_reason (some e)) ∷ [] else failures

unfoldable pub status_of : ServerHealthChecker → Time → Option HealthError → ServerHealthStatus
status_of s now err = record {
  server_id = s.server_id;
  healthy = elim err [ none ↦ true | some e ↦ false ];
  last_checked_at = now;
  last_error = err;
}

-- ServerHealthChecker.Check
unfoldable pub check :
    (Request → Reply)
    → Time
    → ServerHealthChecker
    → Shared
    → Shared × ServerHealthStatus × Option HealthError
check exchange now s w =
    let err = check_health exchange s.checker in
    let status = status_of s now err in
    (
      record {
        store = update w.store s.server_id status;
        failures = elim err [
          | none ↦ w.failures
          | some e ↦ record_health_check_failure s e w.failures
        ];
      },
      status,
      err,
    )
