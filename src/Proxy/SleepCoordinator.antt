-- ===== src/Proxy/SleepCoordinator.antt =====
-- internal/proxy/sleep_coordinator.go. What the goroutine's select takes is a list of events; the
-- sender is an argument that may change a state of its own.
pub mod Loop
use smaug.Prelude.{ℕ, ◌+◌, Str, Bool, true, false, List, [], ◌∷◌, Option, none, some, if◌then◌else◌}

pub data CoordinatorError : Type 0 where
  missing_triggers missing_sender missing_logger already_running not_running : CoordinatorError

pub record SleepCoordinator : Type 0 where
  pub running : Bool
  pub loop : Bool  -- whether the goroutine of the current cycle lives
  pub lingering : ℕ  -- goroutines that Stop has cancelled and that have not ended

pub data Created : Type 0 where
  created : SleepCoordinator → Created
  refused : CoordinatorError → Created

-- NewSleepCoordinator; the arguments tell which of its own are given.
unfoldable pub new_sleep_coordinator : Bool → Bool → Bool → Created
new_sleep_coordinator triggers sender logger =
    if triggers
    then (if sender
        then (if logger
            then Created.created (record { running = false; loop = false; lingering = 0 })
            else Created.refused CoordinatorError.missing_logger)
        else Created.refused CoordinatorError.missing_sender)
    else Created.refused CoordinatorError.missing_triggers

unfoldable pub start_coordinator : SleepCoordinator → SleepCoordinator × Option CoordinatorError
start_coordinator c =
    if c.running
    then (c, some CoordinatorError.already_running)
    else (record c { running = true; loop = true }, none)

-- Stop up to its wait for the goroutine of this cycle, which may still take a trigger.
unfoldable pub stop_coordinator : SleepCoordinator → SleepCoordinator × Option CoordinatorError
stop_coordinator c =
    if c.running
    then (
      record c {
        running = false;
        loop = false;
        lingering = if c.loop then c.lingering + 1 else c.lingering;
      },
      none,
    )
    else (c, some CoordinatorError.not_running)

pub data LoopEvent : Type 0 where
  context_ended triggers_closed : LoopEvent
  triggered : Str → LoopEvent

module _ {W E : Type 0} (sleep : Str → W → W × Option E) where
  -- An error of the sender is logged and nothing else comes of it.
  unfoldable pub handle_trigger : Str → W → W
  handle_trigger route_id w = (sleep route_id w).0

  unfoldable pub run_loop : List LoopEvent → W → W
  run_loop [] w = w
  run_loop (LoopEvent.context_ended ∷ es) w = w
  run_loop (LoopEvent.triggers_closed ∷ es) w = w
  run_loop (LoopEvent.triggered route_id ∷ es) w = run_loop es (handle_trigger route_id w)
