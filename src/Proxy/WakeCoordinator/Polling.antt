-- ===== src/Proxy/WakeCoordinator/Polling.antt =====
-- When the poll loop goes on, when it succeeds and when it fails.
use smaug.Prelude.{
  ℕ, zero, suc, true, false, List, [], ◌∷◌, Option, none, some, ◌≡◌, ◌↔◌, inl, inr, refl, ap, subst,
  ◌∙◌, In, arith,
}
use smaug.Proxy.WakeCoordinator.{WakeError, PollEvent, poll}

-- n ticks at which the server is not found healthy.
abbrev pub unhealthy_ticks : ℕ → List PollEvent → List PollEvent
unhealthy_ticks zero es = es
unhealthy_ticks (suc n) es = PollEvent.ticked false ∷ unhealthy_ticks n es

poll-unhealthy : (n : ℕ) (es : List PollEvent) → poll (unhealthy_ticks n es) ≡ poll es
unfolding poll
poll-unhealthy zero es = refl
poll-unhealthy (suc n) es = poll-unhealthy n es

-- A run of events that makes the loop return.
pub data Ending : List PollEvent → Option WakeError → Type 0 where
  healthy : (es : List PollEvent) → Ending (PollEvent.ticked true ∷ es) none
  timed_out :
      (es : List PollEvent) → Ending (PollEvent.ctx_done ∷ es) (some WakeError.wake_timeout_elapsed)
  shut :
      (es : List PollEvent)
      → Ending (PollEvent.done_closed ∷ es) (some WakeError.coordinator_closed)

Ending-poll : {es : List PollEvent} {e : Option WakeError} → Ending es e → poll es ≡ some e
unfolding poll
Ending-poll (healthy es) = refl
Ending-poll (timed_out es) = refl
Ending-poll (shut es) = refl

-- What the loop has seen when it returns.
abbrev Ended : List PollEvent → Option WakeError → Type 0
Ended es e = (n : ℕ) × (rest : List PollEvent) × (es ≡ unhealthy_ticks n rest) × Ending rest e

later :
    (es : List PollEvent) (e : Option WakeError)
    → Ended es e
    → Ended (PollEvent.ticked false ∷ es) e
later es e (n, rest, eq, end) = (suc n, rest, ap (λ l. PollEvent.ticked false ∷ l) eq, end)

poll-Ended : (es : List PollEvent) (e : Option WakeError) → poll es ≡ some e → Ended es e
unfolding poll
poll-Ended [] e h = cc
poll-Ended (PollEvent.ctx_done ∷ es) e h =
    let same : ◌≡◌ {A = Option WakeError} (some WakeError.wake_timeout_elapsed) e = ground arith in
    (0, _, refl, subst (Ending (PollEvent.ctx_done ∷ es)) same (timed_out es))
poll-Ended (PollEvent.done_closed ∷ es) e h =
    let same : ◌≡◌ {A = Option WakeError} (some WakeError.coordinator_closed) e = ground arith in
    (0, _, refl, subst (Ending (PollEvent.done_closed ∷ es)) same (shut es))
poll-Ended (PollEvent.ticked true ∷ es) e h =
    let same : ◌≡◌ {A = Option WakeError} (none) e = ground arith in
    (0, _, refl, subst (Ending (PollEvent.ticked true ∷ es)) same (healthy es))
poll-Ended (PollEvent.ticked false ∷ es) e h = later es e (poll-Ended es e h)

-- The poll loop returns a result exactly after ticks at which the server is not healthy, followed
-- by a healthy tick (nil), the end of the context (a timeout) or the closing of the coordinator.
pub poll_iff :
    (es : List PollEvent) (e : Option WakeError)
    → (poll es ≡ some e)
      ↔ ((n : ℕ) × (rest : List PollEvent) × (es ≡ unhealthy_ticks n rest) × Ending rest e)
poll_iff es e = (poll-Ended es e, λ h. rw h.2 (poll-unhealthy h.0 h.1 ∙ Ending-poll h.3))

-- So a nil result has seen a healthy tick.
pub poll-healthy : (es : List PollEvent) → poll es ≡ some none → In (PollEvent.ticked true) es
unfolding poll
poll-healthy [] h = ground arith
poll-healthy (PollEvent.ctx_done ∷ es) h = ground arith
poll-healthy (PollEvent.done_closed ∷ es) h = ground arith
poll-healthy (PollEvent.ticked true ∷ es) h = inl refl
poll-healthy (PollEvent.ticked false ∷ es) h = inr (poll-healthy es h)
