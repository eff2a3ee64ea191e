-- ===== src/Tests/Health.antt =====
-- Health checks, idle routes and sleep commands of one server.
use smaug.Prelude.{
  ℕ, pos, str, is_empty, true, false, [], ◌∷◌, ◌++◌, none, some, ◌≡◌, ◌≢◌, ◌⊎◌, refl, arith, Time,
}
use smaug.Prelude.Map.{Map}
use smaug.Config.Types.{Server}
use smaug.Health.Store.{HealthError, new_in_memory_health_store, get}
use smaug.Health.Checker.{
  HealthChecker, Request, Reply, Shared, check_health, health_request, execute_health_request,
  get_failure_reason,
}
use smaug.Health.Manager.{
  HealthManager, ServerWorker, Started, Step, new_worker_for, start_workers, is_checked,
  add_workers, run_checks,
}
use smaug.Health.Verdicts.{failure_reasons}
use smaug.Health.History.{status_found, last_check_holds}
use smaug.Tests.Data.{nas, before}

-- The server answers with a status; or it does not answer.
abbrev answers : ℕ → Request → Reply
answers status r = Reply.answered status

abbrev silent : Request → Reply
silent r = Reply.no_response

abbrev worker : ServerWorker
worker = new_worker_for true (str "nas") nas

abbrev checker : HealthChecker
checker = record { endpoint = str "http://nas/up"; timeout = pos 2; auth_token = str "" }

silent-fails : check_health silent checker ≡ some (HealthError.network_error checker.endpoint)
unfolding check_health execute_health_request
silent-fails = refl

failure_reasons_example :
    ((is_empty checker.endpoint ≡ true)
      × (get_failure_reason (some (HealthError.network_error checker.endpoint))
          ≡ str "missing_url"))
    ⊎ ((((status : ℕ) → silent (health_request checker) ≢ Reply.answered status)
          × (get_failure_reason (some (HealthError.network_error checker.endpoint))
              ≡ str "network_error"))
        ⊎ ((status : ℕ) × (silent (health_request checker) ≡ Reply.answered status)
            × (get_failure_reason (some (HealthError.network_error checker.endpoint))
                ≡ str "unhealthy_status")))
failure_reasons_example =
    failure_reasons silent checker (HealthError.network_error checker.endpoint) silent-fails

abbrev at_time : Time → (Request → Reply) → Step
at_time now f = record { worker = worker; now = now; exchange = λ timeout. f }

abbrev other_worker : ServerWorker
other_worker = new_worker_for true (str "pi") nas

abbrev nothing_known : Shared
nothing_known = record { store = new_in_memory_health_store; failures = [] }

abbrev elsewhere : Step
elsewhere = record { worker = other_worker; now = 12; exchange = λ timeout. silent }

worker-id : worker.checker.server_id ≡ str "nas"
unfolding new_worker_for
worker-id = refl

other_worker-id : other_worker.checker.server_id ≢ str "nas"
unfolding new_worker_for
other_worker-id e = ground arith

last_check_holds_example :
    get
      (run_checks
        (at_time 10 silent ∷ [] ++ at_time 11 (answers 200) ∷ elsewhere ∷ [])
        nothing_known).store
      (str "nas")
    ≡ some (status_found (at_time 11 (answers 200)))
last_check_holds_example =
    last_check_holds (at_time 10 silent ∷ []) (at_time 11 (answers 200)) (elsewhere ∷ [])
      nothing_known (str "nas") worker-id (other_worker-id, tt)

abbrev in_order : Map Server → Map Server
in_order m = m

abbrev manager : HealthManager
manager = record { config = before; metrics = true; workers = []; running = false }

abbrev with_worker : HealthManager
with_worker = record manager { workers = worker ∷ []; running = true }

manager-starts : start_workers in_order manager ≡ Started.returned with_worker none
unfolding start_workers add_workers is_checked
manager-starts = refl
