-- ===== src/Health/Verdicts.antt =====
-- What a check decides, what it records, and what is then logged.
use smaug.Prelude.{
  ℕ, ◌≤◌, ◌<◌, Str, str, is_empty, true, false, Bool-cases, Option, none, some, ◌≡◌, ◌↔◌, ◌⊎◌, ◌≢◌,
  inl, inr, refl, Time, arith, str_eq, if◌then◌else◌,
}
use smaug.Health.Store.{HealthError, ServerHealthStatus, get, update}
use smaug.Prelude.Map.{lookup-insert}
use smaug.Health.Checker.{
  HealthChecker, ServerHealthChecker, Request, Reply, Shared, health_request, validate_status_code,
  execute_health_request, check_health, get_failure_reason, wrapped, reason_of, check, status_of,
}
use smaug.Health.Manager.{Step, Transition, perform_check, log_state_transition, check_timeout}

Reply-cases :
    (r : Reply)
    → (((status : ℕ) → r ≢ Reply.answered status) × (r ≡ Reply.not_built ⊎ r ≡ Reply.no_response))
      ⊎ ((status : ℕ) × (r ≡ Reply.answered status))
Reply-cases Reply.not_built = inl ((λ status e. ground arith), inl refl)
Reply-cases Reply.no_response = inl ((λ status e. ground arith), inr refl)
Reply-cases (Reply.answered status) = inr (status, refl)

module _ (exchange : Request → Reply) (h : HealthChecker) where
  -- A check succeeds exactly if the endpoint is set and the answer has a status from 200 to 399.
  check_health_iff : (check_health exchange h ≡ none) ↔ (
      (is_empty h.endpoint ≡ false)
      × ((status : ℕ) × (exchange (health_request h) ≡ Reply.answered status)
          × (200 ≤ status)
          × (status < 400)))
  unfolding check_health execute_health_request validate_status_code
  check_health_iff = (
    λ c. elim (Bool-cases (is_empty h.endpoint)) [
      | inl missing ↦ ground arith
      | inr set_up ↦ elim (Reply-cases (exchange (health_request h))) [
        | inl (unanswered, inl e) ↦ ground arith
        | inl (unanswered, inr e) ↦ ground arith
        | inr (status, e) ↦ (set_up, (status, e, ground arith, ground arith))
      ]
    ],
    λ (set_up, (status, e, low, high)). ground arith,
  )

  -- A check that fails is counted under one of three reasons: `missing_url` if there is no
  -- endpoint, `network_error` if there is no answer, and `unhealthy_status` otherwise. A passed
  -- deadline and too many redirects are counted as `network_error`.
  pub failure_reasons :
      (e : HealthError)
      → check_health exchange h ≡ some e
      → ((is_empty h.endpoint ≡ true) × (get_failure_reason (some e) ≡ str "missing_url"))
        ⊎ ((((status : ℕ) → exchange (health_request h) ≢ Reply.answered status)
              × (get_failure_reason (some e) ≡ str "network_error"))
            ⊎ ((status : ℕ) × (exchange (health_request h) ≡ Reply.answered status)
                × (get_failure_reason (some e) ≡ str "unhealthy_status")))
  unfolding check_health execute_health_request validate_status_code get_failure_reason wrapped
      reason_of
  failure_reasons e c = elim (Bool-cases (is_empty h.endpoint)) [
    | inl missing ↦ inl (missing, ground arith)
    | inr set_up ↦ elim (Reply-cases (exchange (health_request h))) [
      | inl (unanswered, inl r) ↦ inr (inl (unanswered, ground arith))
      | inl (unanswered, inr r) ↦ inr (inl (unanswered, ground arith))
      | inr (status, r) ↦ inr (inr (status, r, ground arith))
    ]
  ]

-- A check writes the server's status alone, with the verdict and the time of the check.
pub check-store :
    (exchange : Request → Reply) (now : Time) (s : ServerHealthChecker) (w : Shared) (k : Str)
    → get (check exchange now s w).0.store k ≡ (
        if str_eq s.server_id k
        then some (status_of s now (check_health exchange s.checker))
        else get w.store k)
unfolding check get update
check-store exchange now s w k =
    lookup-insert s.server_id k (status_of s now (check_health exchange s.checker)) w.store

abbrev pub Recovers : Option ServerHealthStatus → Option HealthError → Type 0
Recovers prev err =
    (p : ServerHealthStatus) × (prev ≡ some p)
    × (p.last_checked_at ≢ 0)
    × (p.healthy ≡ false)
    × (err ≡ none)

abbrev pub Degrades : Option ServerHealthStatus → Option HealthError → Type 0
Degrades prev err =
    (p : ServerHealthStatus) × (prev ≡ some p)
    × (p.last_checked_at ≢ 0)
    × (p.healthy ≡ true)
    × (err ≢ none)

module _ (s : ServerHealthChecker) (now : Time) where
  log-recovered :
      (prev : Option ServerHealthStatus) (err : Option HealthError)
      → (log_state_transition prev (status_of s now err) ≡ Transition.recovered) ↔ Recovers prev err
  unfolding log_state_transition status_of
  log-recovered none err = ground arith
  log-recovered (some p) none =
      (λ e. (p, refl, ground arith, ground arith, refl), λ (q, e, t, d, o). ground arith)
  log-recovered (some p) (some e) = (λ e. ground arith, λ (q, e, t, d, o). ground arith)

  log-degraded :
      (prev : Option ServerHealthStatus) (err : Option HealthError)
      → (log_state_transition prev (status_of s now err) ≡ Transition.became_unhealthy)
        ↔ Degrades prev err
  unfolding log_state_transition status_of
  log-degraded none err = ground arith
  log-degraded (some p) none = (λ e. ground arith, λ (q, e, t, d, o). ground arith)
  log-degraded (some p) (some e) =
      (λ l. (p, refl, ground arith, ground arith, ground arith), λ (q, e, t, d, o). ground arith)

-- A recovery is logged exactly if the store's last status of the server is a failure and this
-- check succeeds; a degradation exactly if the last status is a success and this check fails.
pub perform_check-logs :
    (s : Step) (w : Shared)
    → let err = check_health (s.exchange (check_timeout s.worker)) s.worker.checker.checker in
      let prev = get w.store s.worker.server_id in
      (((perform_check s w).1 ≡ Transition.recovered) ↔ Recovers prev err)
      × (((perform_check s w).1 ≡ Transition.became_unhealthy) ↔ Degrades prev err)
unfolding perform_check check
perform_check-logs s w =
    let err = check_health (s.exchange (check_timeout s.worker)) s.worker.checker.checker in
    let prev = get w.store s.worker.server_id in
    (log-recovered s.worker.checker s.now prev err, log-degraded s.worker.checker s.now prev err)
