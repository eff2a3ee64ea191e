-- ===== src/Proxy/IdleTracker.antt =====
-- internal/proxy/idle_tracker.go. The channel is the queue of the triggers that are not yet taken.
-- The time of a call and the order in which the map of routes is ranged over are arguments.
pub mod Checks
pub mod Cooldown
pub mod Lifecycle
use smaug.Prelude.{
  ℕ, ◌+◌, ℤ, pos, ltb, ltb_ℤ, leb_ℤ, Time, max_duration, time_sub, Str, Bool, true, false, ◌||◌,
  ◌-◌, ◌==◌, List, [], ◌∷◌, ◌++◌, Option, none, some, if◌then◌else◌, length,
}
use smaug.Prelude.Map.{Map, lookup, insert}

pub record RouteEntry : Type 0 where
  pub idle_timeout : ℤ
  pub last_seen : Time

pub record IdleTracker : Type 0 where
  pub check_interval : ℤ
  pub metrics : Bool  -- whether a registry is set
  pub routes : Map RouteEntry
  pub sleep_ch : List Str
  pub running : Bool
  pub checker : Bool  -- whether the goroutine of the current cycle lives
  pub lingering : ℕ  -- goroutines that Stop has cancelled and that have not ended
  pub recorded : List Str  -- calls of RecordSleepTriggered

pub data TrackerError : Type 0 where
  missing_logger invalid_check_interval already_running not_running : TrackerError

pub data Made {ℓ} (A : Type ℓ) : Type ℓ where
  made : A → Made A
  refused : TrackerError → Made A

abbrev pub idle_never_seen : ℤ
idle_never_seen = max_duration

abbrev pub sleep_trigger_buf_size : ℕ
sleep_trigger_buf_size = 64

-- NewIdleTracker; `logger` tells whether one is given.
unfoldable pub new_idle_tracker : ℤ → Bool → Made IdleTracker
new_idle_tracker check_interval logger =
    if logger
    then (if leb_ℤ check_interval (pos 0)
        then Made.refused TrackerError.invalid_check_interval
        else Made.made (record {
          check_interval = check_interval;
          metrics = false;
          routes = [];
          sleep_ch = [];
          running = false;
          checker = false;
          lingering = 0;
          recorded = [];
        }))
    else Made.refused TrackerError.missing_logger

unfoldable pub set_metrics : IdleTracker → Bool → IdleTracker
set_metrics t reg = if t.running then t else record t { metrics = reg }

unfoldable pub register_route : IdleTracker → Str → ℤ → IdleTracker
register_route t route_id timeout = elim (lookup route_id t.routes) [
  | some e ↦ record t { routes = insert route_id (record e { idle_timeout = timeout }) t.routes }
  | none ↦ record t {
    routes = insert route_id (record { idle_timeout = timeout; last_seen = 0 }) t.routes;
  }
]

unfoldable pub record_activity : IdleTracker → Str → Time → IdleTracker
record_activity t route_id now = elim (lookup route_id t.routes) [
  | some e ↦ record t { routes = insert route_id (record e { last_seen = now }) t.routes }
  | none ↦ record t {
    routes = insert route_id (record { idle_timeout = pos 0; last_seen = now }) t.routes;
  }
]

unfoldable pub compute_idle_time : Time → Time → ℤ
compute_idle_time last_seen now = if last_seen == 0 then idle_never_seen else time_sub now last_seen

unfoldable pub idle_time : IdleTracker → Str → Time → ℤ
unfolding compute_idle_time
idle_time t route_id now = elim (lookup route_id t.routes) [
  | none ↦ idle_never_seen
  | some e ↦ compute_idle_time e.last_seen now
]

-- Whether an entry's idle timeout is exceeded.
unfoldable pub is_idle : Time → RouteEntry → Bool
is_idle now e =
    if leb_ℤ e.idle_timeout (pos 0)
    then false
    else if ltb_ℤ (compute_idle_time e.last_seen now) e.idle_timeout
    then false
    else true

-- A send to the channel that succeeds, with the reset of the route's entry; and its count.
abbrev pub send_trigger : Time → IdleTracker → Str → RouteEntry → IdleTracker
send_trigger now t route_id e = record t {
  sleep_ch = t.sleep_ch ++ route_id ∷ [];
  routes = insert route_id (record e { last_seen = now }) t.routes;
}

abbrev pub count_trigger : IdleTracker → Str → IdleTracker
count_trigger t route_id = record t {
  recorded = if t.metrics then t.recorded ++ route_id ∷ [] else t.recorded;
}

-- The non-blocking send, and what follows where it succeeds.
unfoldable pub emit : Time → IdleTracker → Str → RouteEntry → IdleTracker
emit now t route_id e =
    if ltb (length t.sleep_ch) sleep_trigger_buf_size
    then count_trigger (send_trigger now t route_id e) route_id
    else t

-- The body of the loop of checkIdleRoutes.
unfoldable pub check_route : Time → IdleTracker → Str → IdleTracker
check_route now t route_id = elim (lookup route_id t.routes) [
  | none ↦ t
  | some e ↦ if is_idle now e then emit now t route_id e else t
]

unfoldable pub check_idle_routes : Time → List Str → IdleTracker → IdleTracker
check_idle_routes now [] t = t
check_idle_routes now (route_id ∷ order) t =
    check_idle_routes now order (check_route now t route_id)

unfoldable pub start : IdleTracker → IdleTracker × Option TrackerError
start t =
    if t.running
    then (t, some TrackerError.already_running)
    else (record t { running = true; checker = true }, none)

-- Stop up to its wait for the goroutine of this cycle, which may still make rounds.
unfoldable pub stop : IdleTracker → IdleTracker × Option TrackerError
stop t =
    if t.running
    then (
      record t {
        running = false;
        checker = false;
        lingering = if t.checker then t.lingering + 1 else t.lingering;
      },
      none,
    )
    else (t, some TrackerError.not_running)

-- The select of runChecker: the context that Start was given is done, or Stop has cancelled the
-- goroutine's own, or the ticker fires while a goroutine lives.
unfoldable pub context_done : IdleTracker → IdleTracker
context_done t = record t { checker = false }

unfoldable pub cancelled_ends : IdleTracker → IdleTracker
cancelled_ends t = record t { lingering = t.lingering - 1 }

unfoldable pub tick : Time → List Str → IdleTracker → IdleTracker
tick now order t = if t.checker || ltb 0 t.lingering then check_idle_routes now order t else t
