-- ===== src/Proxy/WakeCoordinator/Requests.antt =====
-- A request from its arrival to its response, while other requests and wakes go on.
use smaug.Prelude.{
  ℕ, Time, Bool, true, Bool-cases, List, Option, none, some, ◌≡◌, ◌⊎◌, inl, inr, In, arith,
}
use smaug.Proxy.WakeCoordinator.{
  WakeCoordinator, WakeCoordinatorConfig, Dependencies, Made, WakeError, Plan, PollEvent, Response,
  new_wake_coordinator, ensure_wake, poll, wait_for_wake, serve_http,
}
use smaug.Proxy.WakeCoordinator.Machine.{Reach, request, here, next}
use smaug.Proxy.WakeCoordinator.Single.{is_done, wake_result_honest}
use smaug.Proxy.WakeCoordinator.Polling.{poll-healthy}

-- How ensureWake, with its plan made, comes by its result in a later state, `es` being the events
-- of its own poll loop: the wake that it waits for is done or the request is cancelled, or its loop
-- ends.
pub data Result (d : WakeCoordinator) (es : List PollEvent) : Plan → Option WakeError → Type 0 where
  joined :
      (i : ℕ) (cancelled : Bool)
      → (cancelled ≡ true) ⊎ (is_done (d.wakes i).phase ≡ true)
      → Result d es (Plan.joins i) (wait_for_wake cancelled (d.wakes i))
  own :
      (i : ℕ) (cancelled : Bool)
      → (cancelled ≡ true) ⊎ (is_done (d.wakes i).phase ≡ true)
      → Result d es (Plan.begins i) (wait_for_wake cancelled (d.wakes i))
  looped : (e : Option WakeError) → poll es ≡ some e → Result d es Plan.polls e

-- The poll that the plan rests on has found the server healthy.
abbrev pub Saw : WakeCoordinator → List PollEvent → Plan → Type 0
Saw d es (Plan.joins i) = (d.wakes i).seen ≡ true
Saw d es (Plan.begins i) = (d.wakes i).seen ≡ true
Saw d es Plan.polls = In (PollEvent.ticked true) es

Reach-trans : {s c d : WakeCoordinator} → Reach s c → Reach c d → Reach s d
Reach-trans r here = r
Reach-trans r (next q st) = next (Reach-trans r q) st

module _ (cfg : WakeCoordinatorConfig) (deps : Dependencies) (s : WakeCoordinator)
    (new : new_wake_coordinator cfg deps ≡ Made.made s) where
  waited :
      (d : WakeCoordinator) (i : ℕ) (cancelled : Bool)
      → Reach s d
      → (cancelled ≡ true) ⊎ (is_done (d.wakes i).phase ≡ true)
      → wait_for_wake cancelled (d.wakes i) ≡ none
      → (d.wakes i).seen ≡ true
  unfolding wait_for_wake
  waited d i cancelled r done h = ground (arith, wake_result_honest cfg deps s d new r i)

  Result-Saw :
      (d : WakeCoordinator) (es : List PollEvent) (p : Plan) (e : Option WakeError)
      → Reach s d
      → Result d es p e
      → e ≡ none
      → Saw d es p
  Result-Saw d es p e r (joined i cancelled done) h = waited d i cancelled r done h
  Result-Saw d es p e r (own i cancelled done) h = waited d i cancelled r done h
  Result-Saw d es p e r (looped f q) h = poll-healthy es (rw h at q)

  -- A request is forwarded only if the server was found healthy: by the look at the store on its
  -- arrival, or by a poll of the wake or of the loop that it waited for. This holds from any state
  -- of the coordinator on, whatever else goes on in between.
  pub forwarded_only_if_healthy :
      (now : Time) (c d : WakeCoordinator) (es : List PollEvent) (healthy : Bool)
      (e : Option WakeError)
      → Reach s c
      → Reach (ensure_wake now c).0 d
      → Result d es (ensure_wake now c).1 e
      → serve_http healthy e ≡ Response.forwarded
      → (healthy ≡ true) ⊎ Saw d es (ensure_wake now c).1
  unfolding serve_http
  forwarded_only_if_healthy now c d es healthy e r q result h = elim (Bool-cases healthy) [
    | inl up ↦ inl up
    | inr down ↦ inr (
        Result-Saw d es (ensure_wake now c).1 e (Reach-trans (next r (request now)) q) result
          (ground arith))
  ]
