-- ===== src/Proxy/WakeCoordinator.antt =====
-- internal/proxy/wake_coordinator.go. The goroutine of each wake goes through phases; which event a
-- `select` takes, what the health store holds at a poll, and the time, are arguments. `metrics` is
-- always nil in this program and is left out.
pub mod Machine
pub mod Polling
pub mod Single
pub mod Requests
use smaug.Prelude.{
  ℕ, zero, suc, ◌+◌, ℤ, pos, leb_ℤ, ltb_ℤ, Time, time_sub, Str, is_empty, Bool, true, false, not,
  ◌&&◌, ◌||◌, ◌==◌, List, [], ◌∷◌, Option, none, some, if◌then◌else◌,
}

pub data WakeError : Type 0 where
  missing_server_id missing_machine_id invalid_wake_timeout missing_downstream : WakeError
  missing_wol_sender missing_health_store missing_logger : WakeError
  wake_timeout_elapsed coordinator_closed wake_interrupted : WakeError

pub record WakeCoordinatorConfig : Type 0 where
  pub server_id : Str
  pub machine_id : Str
  pub wake_timeout : ℤ
  pub debounce : ℤ
  pub poll_interval : ℤ

-- Which of the other arguments of NewWakeCoordinator are not nil.
pub record Dependencies : Type 0 where
  pub downstream : Bool
  pub wol_sender : Bool
  pub store : Bool
  pub logger : Bool

unfoldable pub validate_wake_coordinator_config :
    WakeCoordinatorConfig → Dependencies → Option WakeError
validate_wake_coordinator_config cfg deps =
    if is_empty cfg.server_id
    then some WakeError.missing_server_id
    else if is_empty cfg.machine_id
    then some WakeError.missing_machine_id
    else if leb_ℤ cfg.wake_timeout (pos 0)
    then some WakeError.invalid_wake_timeout
    else if not deps.downstream
    then some WakeError.missing_downstream
    else if not deps.wol_sender
    then some WakeError.missing_wol_sender
    else if not deps.store
    then some WakeError.missing_health_store
    else if not deps.logger
    then some WakeError.missing_logger
    else none

-- A wake attempt: its goroutine sends the command, polls, has published its result by closing
-- `done`, or has ended; `seen` tells whether one of its polls found the server healthy.
pub data Phase : Type 0 where
  unborn sending polling published ended : Phase

pub record Wake : Type 0 where
  pub phase : Phase
  pub err : Option WakeError
  pub seen : Bool

pub record WakeCoordinator : Type 0 where
  pub cfg : WakeCoordinatorConfig
  pub closed : Bool
  pub last_wol_at : Time
  pub wake_in_flight : Option ℕ
  pub wakes : ℕ → Wake  -- the inflightWake values by number
  pub next_wake : ℕ
  pub begun : List Time  -- when wakes were begun, newest first

abbrev pub default_poll_interval : ℤ
default_poll_interval = pos 500_000_000

abbrev pub no_wake : Wake
no_wake = record { phase = Phase.unborn; err = none; seen = false }

pub data Made : Type 0 where
  made : WakeCoordinator → Made
  refused : WakeError → Made

unfoldable pub new_wake_coordinator : WakeCoordinatorConfig → Dependencies → Made
new_wake_coordinator cfg deps = elim (validate_wake_coordinator_config cfg deps) [
  | some e ↦ Made.refused e
  | none ↦ Made.made (record {
    cfg = record cfg {
      poll_interval =
          if leb_ℤ cfg.poll_interval (pos 0) then default_poll_interval else cfg.poll_interval;
    };
    closed = false;
    last_wol_at = 0;
    wake_in_flight = none;
    wakes = λ i. no_wake;
    next_wake = 0;
    begun = [];
  })
]

-- Close; it returns once every wake goroutine has ended.
unfoldable pub close : WakeCoordinator → WakeCoordinator
close c = record c { closed = true }

-- What ensureWake does under the lock: join the wake in flight, only poll, or begin a wake and wait
-- for it.
pub data Plan : Type 0 where
  joins : ℕ → Plan
  polls : Plan
  begins : ℕ → Plan

abbrev pub update : (ℕ → Wake) → ℕ → Wake → ℕ → Wake
update f i w j = if i == j then w else f j

unfoldable pub begin_wake : Time → WakeCoordinator → WakeCoordinator
begin_wake now c = record c {
  wake_in_flight = some c.next_wake;
  last_wol_at = now;
  wakes = update c.wakes c.next_wake (record no_wake { phase = Phase.sending });
  next_wake = c.next_wake + 1;
  begun = now ∷ c.begun;
}

unfoldable pub ensure_wake : Time → WakeCoordinator → WakeCoordinator × Plan
unfolding begin_wake
ensure_wake now c = elim c.wake_in_flight [
  | some i ↦ (c, Plan.joins i)
  | none ↦
      if ltb_ℤ (pos 0) c.cfg.debounce && ltb_ℤ (time_sub now c.last_wol_at) c.cfg.debounce
      then (c, Plan.polls)
      else (begin_wake now c, Plan.begins c.next_wake)
]

-- What the select of the poll loop takes: the context is done, the coordinator is closed, or the
-- ticker fires and the health store says whether the server is found and healthy.
pub data PollEvent : Type 0 where
  ctx_done done_closed : PollEvent
  ticked : Bool → PollEvent

-- pollUntilHealthyWithContext over the events that it takes: `none` while it goes on, and then the
-- error that it returns.
unfoldable pub poll : List PollEvent → Option (Option WakeError)
poll [] = none
poll (PollEvent.ctx_done ∷ es) = some (some WakeError.wake_timeout_elapsed)
poll (PollEvent.done_closed ∷ es) = some (some WakeError.coordinator_closed)
poll (PollEvent.ticked healthy ∷ es) = let rest = poll es in if healthy then some none else rest

-- The steps of performWake: the command has been sent (its error is only logged), ...
unfoldable pub wol_sent : ℕ → WakeCoordinator → WakeCoordinator
wol_sent i c = record c { wakes = update c.wakes i (record (c.wakes i) { phase = Phase.polling }) }

-- ... the poll loop takes an event, and publishes the result if that ends it, ...
unfoldable pub wake_polls : ℕ → PollEvent → WakeCoordinator → WakeCoordinator
unfolding poll
wake_polls i ev c = elim (poll (ev ∷ [])) [
  | none ↦ c
  | some e ↦ record c {
    wakes = update c.wakes i (record {
      phase = Phase.published;
      err = e;
      seen = elim e [ none ↦ true | some x ↦ false ];
    });
  }
]

-- ... and the wake is taken out of flight.
unfoldable pub wake_ends : ℕ → WakeCoordinator → WakeCoordinator
wake_ends i c = record c {
  wake_in_flight = none;
  wakes = update c.wakes i (record (c.wakes i) { phase = Phase.ended });
}

-- waitForWake takes either the end of the wake or the end of the request's context.
unfoldable pub wait_for_wake : Bool → Wake → Option WakeError
wait_for_wake cancelled w = if cancelled then some WakeError.wake_interrupted else w.err

pub data Response : Type 0 where
  forwarded unavailable : Response

unfoldable pub respond : Option WakeError → Response
respond none = Response.forwarded
respond (some e) = Response.unavailable

-- ServeHTTP, from what the store says at first and what ensureWake returns.
unfoldable pub serve_http : Bool → Option WakeError → Response
unfolding respond
serve_http healthy result = if healthy then Response.forwarded else respond result
