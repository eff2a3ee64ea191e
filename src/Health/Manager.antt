-- ===== src/Health/Manager.antt =====
-- internal/health/manager.go: a worker per server. The workers' checks interleave: each is a step,
-- at a time and with what the HTTP client then returns.
use smaug.Prelude.{
  ℤ, pos, leb_ℤ, ◌==◌, Str, is_empty, Bool, true, false, not, ◌&&◌, List, [], ◌∷◌, ◌++◌, Option,
  none, some, if◌then◌else◌, Time,
}
use smaug.Prelude.Map.{Map}
use smaug.Config.Types.{Config, Server}
use smaug.Health.Store.{ServerHealthStatus, get}
use smaug.Health.Checker.{ServerHealthChecker, Request, Reply, Shared, check, new_health_checker}

pub record ServerWorker : Type 0 where
  pub server_id : Str
  pub interval : ℤ
  pub timeout : ℤ
  pub checker : ServerHealthChecker

pub record HealthManager : Type 0 where
  pub config : Config
  pub metrics : Bool
  pub workers : List ServerWorker
  pub running : Bool  -- whether `cancel` is set

pub data ManagerError : Type 0 where
  already_running not_running shutdown_timeout : ManagerError

-- NewServerHealthChecker panics on an empty identifier.
pub data Started : Type 0 where
  returned : HealthManager → Option ManagerError → Started
  panicked : Started

unfoldable pub new_health_manager : Config → HealthManager
new_health_manager cfg = record { config = cfg; metrics = false; workers = []; running = false }

unfoldable pub set_registry : HealthManager → Bool → HealthManager
set_registry m reg = if m.running then m else record m { metrics = reg }

-- newWorkerFor with NewHealthChecker and, for an identifier that is not empty,
-- NewServerHealthChecker.
unfoldable pub new_worker_for : Bool → Str → Server → ServerWorker
new_worker_for metrics server_id server =
    let hc = server.health_check in
    record {
      server_id = server_id;
      interval = hc.interval;
      timeout = hc.timeout;
      checker = record {
        server_id = server_id;
        checker = new_health_checker hc.endpoint hc.timeout hc.auth_token.value;
        metrics = metrics;
      };
    }

-- The guards of the loop of Start.
unfoldable pub is_checked : Server → Bool
is_checked server =
    if is_empty server.health_check.endpoint
    then false
    else if leb_ℤ server.health_check.interval (pos 0)
    then false
    else true

-- The loop of Start over the servers, in the order of `range`; `none` is a panic.
unfoldable pub add_workers : Bool → Map Server → List ServerWorker → Option (List ServerWorker)
add_workers metrics [] ws = some ws
add_workers metrics ((server_id, server) ∷ es) ws =
    let rest = add_workers metrics es in
    if is_checked server
    then (if is_empty server_id
        then none
        else rest (ws ++ new_worker_for metrics server_id server ∷ []))
    else rest ws

unfoldable pub start_workers : (Map Server → Map Server) → HealthManager → Started
start_workers range m =
    if m.running
    then Started.returned m (some ManagerError.already_running)
    else elim (add_workers m.metrics (range m.config.servers) m.workers) [
      | none ↦ Started.panicked
      | some ws ↦ Started.returned (record m { workers = ws; running = true }) none
    ]

-- Stop; `in_time` tells whether every worker ends within five seconds.
unfoldable pub stop_workers : Bool → HealthManager → HealthManager × Option ManagerError
stop_workers in_time m =
    if m.running
    then (
      record m { running = false },
      if in_time then none else some ManagerError.shutdown_timeout,
    )
    else (m, some ManagerError.not_running)

abbrev pub default_check_timeout : ℤ
default_check_timeout = pos 30_000_000_000

-- The time that a check is given.
unfoldable pub check_timeout : ServerWorker → ℤ
check_timeout w = if leb_ℤ w.timeout (pos 0) then default_check_timeout else w.timeout

-- The lines that logStateTransition writes.
pub data Transition : Type 0 where
  is_healthy is_unhealthy recovered became_unhealthy succeeded still_unhealthy : Transition

-- Without an entry, what Get returns is the zero value.
unfoldable pub log_state_transition : Option ServerHealthStatus → ServerHealthStatus → Transition
log_state_transition none current =
    if current.healthy then Transition.is_healthy else Transition.is_unhealthy
log_state_transition (some prev) current =
    if prev.last_checked_at == 0
    then (if current.healthy then Transition.is_healthy else Transition.is_unhealthy)
    else if not prev.healthy && current.healthy
    then Transition.recovered
    else if prev.healthy && not current.healthy
    then Transition.became_unhealthy
    else if current.healthy
    then Transition.succeeded
    else Transition.still_unhealthy

-- A check that a worker makes: it is called with a context that `check_timeout` bounds.
pub record Step : Type 0 where
  pub worker : ServerWorker
  pub now : Time
  pub exchange : ℤ → Request → Reply  -- within the given time

unfoldable pub perform_check : Step → Shared → Shared × Transition
perform_check s w =
    let prev = get w.store s.worker.server_id in
    let (w', current, err) = check (s.exchange (check_timeout s.worker)) s.now s.worker.checker w in
    (w', log_state_transition prev current)

-- The workers' checks in the order in which they reach the store.
unfoldable pub run_checks : List Step → Shared → Shared
run_checks [] w = w
run_checks (s ∷ ss) w = run_checks ss (perform_check s w).0
