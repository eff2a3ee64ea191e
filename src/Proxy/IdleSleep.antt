-- ===== src/Proxy/IdleSleep.antt =====
-- The idle tracker and the sleep coordinator at work together: checkIdleRoutes
-- (internal/proxy/idle_tracker.go) sends the triggers that the select of runLoop
-- (internal/proxy/sleep_coordinator.go) takes. A round of checks is one step for each route and one
-- for each count, and the loop takes a trigger in one step and calls the sender in another. What
-- the sender answers is an argument.
pub mod Delivery
pub mod Due
use smaug.Prelude.{
  ◌<◌, ◌-◌, ltb, ◌||◌, ◌&&◌, ◌⊎◌, ℤ, Time, Str, Bool, false, true, List, [], ◌∷◌, ◌++◌, Option,
  none, some, ◌≡◌, Distinct, length, if◌then◌else◌,
}
use smaug.Prelude.Map.{lookup}
use smaug.Proxy.IdleTracker.{
  IdleTracker, sleep_trigger_buf_size, register_route, record_activity, start, stop, context_done,
  cancelled_ends, is_idle, send_trigger, count_trigger,
}
use smaug.Proxy.SleepCoordinator.{
  SleepCoordinator, start_coordinator, stop_coordinator, handle_trigger,
}

-- A round of checks: its time, and the routes that it has not visited yet.
pub record CheckRound : Type 0 where
  pub now : Time
  pub order : List Str

-- `round` is the round of checks that holds the tracker's lock, `pending` the trigger that it has
-- sent and not counted yet, `held` the trigger that the loop has taken and not put to the sender
-- yet. `attempts` are the calls of the sender, the oldest first.
pub record Pipeline : Type 0 where
  pub tracker : IdleTracker
  pub round : Option CheckRound
  pub pending : Option Str
  pub coordinator : SleepCoordinator
  pub held : Option Str
  pub attempts : List Str

-- SleepTriggers: the receiving end of the tracker's channel; `none` where the channel is empty.
unfoldable pub receive_trigger : IdleTracker → Option (Str × IdleTracker)
receive_trigger t = elim t.sleep_ch [
  | [] ↦ none
  | id ∷ rest ↦ some (id, record t { sleep_ch = rest })
]

-- The body of the loop of checkIdleRoutes up to the count of the trigger, if one is sent.
unfoldable pub visit_route : Time → IdleTracker → Str → IdleTracker × Option Str
visit_route now t route_id = elim (lookup route_id t.routes) [
  | none ↦ (t, none)
  | some e ↦
      if is_idle now e && ltb (length t.sleep_ch) sleep_trigger_buf_size
      then (send_trigger now t route_id e, some route_id)
      else (t, none)
]

abbrev pub visited : Time → Str → List Str → Pipeline → Pipeline
visited now id rest p = record p {
  tracker = (visit_route now p.tracker id).0;
  round = some (record { now = now; order = rest });
  pending = (visit_route now p.tracker id).1;
}

-- The second case of the select of runLoop, which a goroutine that Stop has cancelled may still
-- take; `none` where it cannot be taken, or the loop is at work on a trigger.
unfoldable pub receive_next : Pipeline → Option Pipeline
unfolding receive_trigger
receive_next p =
    if p.coordinator.loop || ltb 0 p.coordinator.lingering
    then elim p.held [
      | some busy ↦ none
      | none ↦ elim (receive_trigger p.tracker) [
        | none ↦ none
        | some (id, t) ↦ some (record p { tracker = t; held = some id })
      ]
    ]
    else none

module _ {E : Type 0} (answer : Str → List Str → Option E) where
  -- The call of handleTrigger that follows.
  unfoldable pub call_sender : Pipeline → Option Pipeline
  call_sender p = elim p.held [
    | none ↦ none
    | some id ↦ some (record p {
      attempts = handle_trigger (λ i log. (log ++ i ∷ [], answer i log)) id p.attempts;
      held = none;
    })
  ]

  unfoldable pub finish_trigger : Pipeline → Pipeline
  unfolding call_sender
  finish_trigger p = elim (call_sender p) [ none ↦ p | some q ↦ q ]

  -- The loop up to the end of its next turn that takes a trigger: first it is done with the trigger
  -- that it holds, if any.
  unfoldable pub take_trigger : Pipeline → Option Pipeline
  unfolding receive_next call_sender finish_trigger
  take_trigger p = elim (receive_next (finish_trigger p)) [ none ↦ none | some q ↦ call_sender q ]

  abbrev with_tracker : IdleTracker → Pipeline → Pipeline
  with_tracker t p = record p { tracker = t }

  abbrev with_coordinator : SleepCoordinator → Pipeline → Pipeline
  with_coordinator c p = record p { coordinator = c }

  -- What the two can do, in any order. A round of checks meets each route once, and holds the
  -- tracker's lock, which its other methods wait for. The coordinator is not started again while a
  -- goroutine that was stopped is still at work.
  pub data Step (p : Pipeline) : Pipeline → Type 0 where
    registers :
        (id : Str) (timeout : ℤ)
        → p.round ≡ none
        → Step p (with_tracker (register_route p.tracker id timeout) p)
    records :
        (id : Str) (now : Time)
        → p.round ≡ none
        → Step p (with_tracker (record_activity p.tracker id now) p)
    starts : p.round ≡ none → Step p (with_tracker (start p.tracker).0 p)
    stops : p.round ≡ none → Step p (with_tracker (stop p.tracker).0 p)
    cancelled : Step p (with_tracker (context_done p.tracker) p)
    ended : 0 < p.tracker.lingering → Step p (with_tracker (cancelled_ends p.tracker) p)
    round_begins :
        (now : Time) (order : List Str)
        → (p.tracker.checker ≡ true) ⊎ (0 < p.tracker.lingering)
        → p.round ≡ none
        → Distinct order
        → Step p (record p { round = some (record { now = now; order = order }) })
    visits :
        (now : Time) (id : Str) (rest : List Str)
        → p.round ≡ some (record { now = now; order = id ∷ rest })
        → p.pending ≡ none
        → Step p (visited now id rest p)
    counts :
        (id : Str)
        → p.pending ≡ some id
        → Step p (record p { tracker = count_trigger p.tracker id; pending = none })
    round_ends :
        (now : Time)
        → p.round ≡ some (record { now = now; order = [] })
        → p.pending ≡ none
        → Step p (record p { round = none })
    starts_loop :
        p.coordinator.lingering ≡ 0
        → Step p (with_coordinator (start_coordinator p.coordinator).0 p)
    stops_loop : Step p (with_coordinator (stop_coordinator p.coordinator).0 p)
    loop_ends : p.held ≡ none → Step p (with_coordinator (record p.coordinator { loop = false }) p)
    stopped_loop_ends :
        p.held ≡ none
        → 0 < p.coordinator.lingering
        → Step p
            (with_coordinator (record p.coordinator { lingering = p.coordinator.lingering - 1 }) p)
    receives : (q : Pipeline) → p.held ≡ none → receive_next p ≡ some q → Step p q
    calls : (q : Pipeline) → call_sender p ≡ some q → Step p q

  pub data Reach (s : Pipeline) : Pipeline → Type 0 where
    here : Reach s s
    next : {p q : Pipeline} → Reach s p → Step p q → Reach s q
