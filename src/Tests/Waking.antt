-- ===== src/Tests/Waking.antt =====
-- A wake from the first request to a healthy server.
use smaug.Prelude.{
  ℕ, pos, str, true, false, [], none, ◌≡◌, ◌⊎◌, refl, inr, arith, ap, subst, time_sub,
}
use smaug.Proxy.WakeCoordinator.{
  WakeCoordinator, WakeCoordinatorConfig, Dependencies, Made, Plan, Phase, PollEvent, Response,
  validate_wake_coordinator_config, new_wake_coordinator, ensure_wake, wol_sent, wake_polls, poll,
  serve_http, wait_for_wake, respond, no_wake,
}
use smaug.Proxy.WakeCoordinator.Machine.{Reach, request, sent, polled, here, next}
use smaug.Proxy.WakeCoordinator.Single.{is_live, is_done, Spaced, single_wake, wakes-Spaced}
use smaug.Proxy.WakeCoordinator.Requests.{Result, Saw, own, forwarded_only_if_healthy}

abbrev settings : WakeCoordinatorConfig
settings = record {
  server_id = str "nas";
  machine_id = str "m1";
  wake_timeout = pos 30;
  debounce = pos 5;
  poll_interval = pos 1;
}

abbrev all_given : Dependencies
all_given = record { downstream = true; wol_sender = true; store = true; logger = true }

abbrev asleep : WakeCoordinator
asleep = record {
  cfg = settings;
  closed = false;
  last_wol_at = 0;
  wake_in_flight = none;
  wakes = λ i. no_wake;
  next_wake = 0;
  begun = [];
}

asleep-new : new_wake_coordinator settings all_given ≡ Made.made asleep
unfolding new_wake_coordinator validate_wake_coordinator_config
asleep-new = refl

-- A request at time 100 begins wake 0.
abbrev begun : WakeCoordinator
begun = (ensure_wake 100 asleep).0

begins : (ensure_wake 100 asleep).1 ≡ Plan.begins 0
unfolding ensure_wake time_sub
begins = refl

begun-sending : (begun.wakes 0).phase ≡ Phase.sending
unfolding ensure_wake time_sub
begun-sending = refl

abbrev polling : WakeCoordinator
polling = wol_sent 0 begun

polling-phase : (polling.wakes 0).phase ≡ Phase.polling
unfolding wol_sent ensure_wake time_sub
polling-phase = refl

abbrev woken : WakeCoordinator
woken = wake_polls 0 (PollEvent.ticked true) polling

begun-Reach : Reach asleep begun
begun-Reach = next here (request 100)

woken-Reach : Reach begun woken
woken-Reach =
    next (next here (sent 0 begun-sending)) (polled 0 (PollEvent.ticked true) polling-phase)

woken-published : (woken.wakes 0).phase ≡ Phase.published
unfolding wake_polls poll wol_sent ensure_wake time_sub
woken-published = refl

woken-err : wait_for_wake false (woken.wakes 0) ≡ none
unfolding wait_for_wake wake_polls poll wol_sent ensure_wake time_sub
woken-err = refl

begun-live : is_live (begun.wakes 0).phase ≡ true
begun-live = ap is_live begun-sending

single_wake_example : ◌≡◌ {A = ℕ} 0 0
single_wake_example =
    single_wake settings all_given asleep begun asleep-new begun-Reach 0 0 begun-live begun-live

wakes-Spaced_example : Spaced (pos 5) begun.begun
wakes-Spaced_example =
    wakes-Spaced settings all_given asleep begun asleep-new begun-Reach (omega arith)

-- The request that began the wake waits for it.
waits : Result woken [] (ensure_wake 100 asleep).1 none
waits =
    let done : is_done (woken.wakes 0).phase ≡ true = ap is_done woken-published in
    rw begins (subst (Result woken [] (Plan.begins 0)) woken-err (own 0 false (inr done)))

forwards : serve_http false none ≡ Response.forwarded
unfolding serve_http respond
forwards = refl

forwarded_only_if_healthy_example : (false ≡ true) ⊎ Saw woken [] (ensure_wake 100 asleep).1
forwarded_only_if_healthy_example =
    forwarded_only_if_healthy settings all_given asleep asleep-new 100 asleep woken [] false none
      here woken-Reach waits forwards
