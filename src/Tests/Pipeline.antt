-- ===== src/Tests/Pipeline.antt =====
-- A route that falls idle, is triggered and is put to sleep.
use smaug.Prelude.{
  Time, Str, str, str_eq, Option, none, some, true, false, List, [], ◌∷◌, ◌++◌, ◌≡◌, ◌≤◌, refl, inl,
  arith, time_sub,
}
use smaug.Prelude.Map.{lookup, insert}
use smaug.Proxy.IdleTracker.{count_trigger, is_idle, compute_idle_time, record_activity}
use smaug.Proxy.IdleTracker.Checks.{is_due}
use smaug.Proxy.SleepCoordinator.{handle_trigger}
use smaug.Proxy.IdleSleep.{
  Pipeline, receive_trigger, receive_next, call_sender, take_trigger, visit_route, visited, Step,
  Reach,
}
use smaug.Proxy.IdleSleep.Delivery.{in_hand, triggers_delivered}
use smaug.Proxy.IdleSleep.Due.{attempts_were_due, trigger_outlives_activity}
use smaug.Tests.Idle.{tracker}

abbrev sleeps : Str → List Str → Option Str
sleeps id log = none

abbrev idle : Pipeline
idle = record {
  tracker = tracker;
  round = none;
  pending = none;
  coordinator = record { running = true; loop = true; lingering = 0 };
  held = none;
  attempts = [];
}

abbrev order : List Str
order = str "web" ∷ []

-- A round begins, visits the route, and ends after the count; the loop takes the trigger before it is
-- counted, and calls the sender after the round.
abbrev begun : Pipeline
begun = record idle { round = some (record { now = 200; order = order }) }

abbrev fired : Pipeline
fired = visited 200 (str "web") [] begun

abbrev taken : Pipeline
taken = record fired { tracker = record fired.tracker { sleep_ch = [] }; held = some (str "web") }

abbrev counted : Pipeline
counted = record taken { tracker = count_trigger taken.tracker (str "web"); pending = none }

abbrev over : Pipeline
over = record counted { round = none }

abbrev asleep : Pipeline
asleep = record over { held = none; attempts = str "web" ∷ [] }

fired-taken : receive_next fired ≡ some taken
unfolding receive_next receive_trigger visit_route lookup insert str_eq is_idle compute_idle_time
    time_sub
fired-taken = refl

fired-pending : taken.pending ≡ some (str "web")
unfolding visit_route lookup insert str_eq is_idle compute_idle_time time_sub
fired-pending = refl

over-asleep : call_sender sleeps over ≡ some asleep
unfolding call_sender handle_trigger
over-asleep = refl

taken-Reached : Reach sleeps idle taken
taken-Reached =
    let begins =
      Reach.next Reach.here (Step.round_begins 200 order (inl refl) refl ((λ h. h), tt)) in
    Reach.next (Reach.next begins (Step.visits 200 (str "web") [] refl refl))
      (Step.receives taken refl fired-taken)

asleep-Reached : Reach sleeps idle asleep
asleep-Reached =
    let counts = Reach.next taken-Reached (Step.counts (str "web") fired-pending) in
    Reach.next (Reach.next counts (Step.round_ends 200 refl refl)) (Step.calls asleep over-asleep)

triggers_delivered_example :
    asleep.tracker.recorded ++ in_hand asleep.pending
    ≡ asleep.attempts ++ in_hand asleep.held ++ asleep.tracker.sleep_ch
triggers_delivered_example =
    triggers_delivered sleeps idle asleep refl (refl, refl) (refl, refl) refl asleep-Reached

attempts_were_due_example :
    (q : Pipeline) × (now : Time) × (rest : List Str) × Reach sleeps idle q
    × ((q.round ≡ some (record { now = now; order = str "web" ∷ rest }))
        × (is_due now q.tracker (str "web") ≡ true)
        × ((visit_route now q.tracker (str "web")).1 ≡ some (str "web")))
    × Reach sleeps (visited now (str "web") rest q) asleep
attempts_were_due_example =
    attempts_were_due sleeps idle asleep refl refl refl asleep-Reached (str "web") (inl refl)

fired-loop : fired.coordinator.loop ≡ true
fired-loop = refl

fired-head : fired.tracker.sleep_ch ≡ str "web" ∷ []
unfolding visit_route lookup insert str_eq is_idle compute_idle_time time_sub
fired-head = refl

positive : 1 ≤ 250
positive = omega arith

trigger_outlives_activity_example :
    (q : Pipeline) × (take_trigger sleeps
        (record fired { tracker = record_activity fired.tracker (str "web") 250 })
      ≡ some q)
    × (q.attempts ≡ fired.attempts ++ in_hand fired.held ++ str "web" ∷ [])
    × (is_due 250 q.tracker (str "web") ≡ false)
trigger_outlives_activity_example =
    trigger_outlives_activity sleeps fired (str "web") [] 250 fired-loop fired-head positive
