-- ===== src/Proxy/IdleSleep/Due.antt =====
-- A sleep command is sent only for a route that was idle, but maybe no longer is.
use mathlib.Core.List.{append_assoc, append-nil}
use smaug.Prelude.{
  Time, Str, false, true, List, [], ◌∷◌, ◌++◌, Option, none, some, Option-cases, ◌≡◌, ◌⊎◌, subst,
  inl, inr, refl, sym, ap, ◌∙◌, arith, In, In-append_cases, pos, str_eq_iff, In-append_left, ◌≤◌,
  time_sub,
}
use smaug.Prelude.Map.{lookup, lookup-insert}
use smaug.Proxy.IdleTracker.{
  IdleTracker, register_route, record_activity, start, stop, context_done, cancelled_ends, is_idle,
  compute_idle_time,
}
use smaug.Proxy.IdleTracker.Checks.{is_due}
use smaug.Proxy.SleepCoordinator.{handle_trigger}
use smaug.Proxy.IdleSleep.{finish_trigger}
use smaug.Proxy.IdleSleep.{
  Pipeline, receive_trigger, receive_next, call_sender, take_trigger, visit_route, visited, Step,
  Reach,
}
use smaug.Proxy.IdleSleep.Delivery.{
  in_hand, sent, visit_route-cases, receive_next-sent, call_sender-sent,
}

-- A round is about to visit a route that is idle, and to send its trigger.
abbrev Fires : Pipeline → Time → Str → List Str → Type 0
Fires p now id rest =
    (p.round ≡ some (record { now = now; order = id ∷ rest }))
    × (is_due now p.tracker id ≡ true)
    × ((visit_route now p.tracker id).1 ≡ some id)

module _ {E : Type 0} (answer : Str → List Str → Option E) where
  -- A visit on the way from one state to another.
  abbrev WasDue : Pipeline → Pipeline → Str → Type 0
  WasDue s p id =
      (q : Pipeline) × (now : Time) × (rest : List Str) × Reach answer s q
      × Fires q now id rest
      × Reach answer (visited now id rest q) p

  -- A step leaves what has been sent as it is, but for a visit that sends.
  step-sent :
      (p q : Pipeline)
      → Step answer p q
      → (sent q ≡ sent p)
        ⊎ ((now : Time) × (id : Str) × (rest : List Str) × Fires p now id rest
            × (visited now id rest p ≡ q)
            × (sent q ≡ sent p ++ id ∷ []))
  unfolding register_route record_activity start stop context_done cancelled_ends
  step-sent p _ (Step.registers i timeout l) =
      let same : (register_route p.tracker i timeout).sleep_ch ≡ p.tracker.sleep_ch =
        ground arith in
      inl (ap (λ l. p.attempts ++ in_hand p.held ++ l) same)
  step-sent p _ (Step.records i now l) =
      let same : (record_activity p.tracker i now).sleep_ch ≡ p.tracker.sleep_ch = ground arith in
      inl (ap (λ l. p.attempts ++ in_hand p.held ++ l) same)
  step-sent p _ (Step.starts l) =
      let same : (start p.tracker).0.sleep_ch ≡ p.tracker.sleep_ch = ground arith in
      inl (ap (λ l. p.attempts ++ in_hand p.held ++ l) same)
  step-sent p _ (Step.stops l) =
      let same : (stop p.tracker).0.sleep_ch ≡ p.tracker.sleep_ch = ground arith in
      inl (ap (λ l. p.attempts ++ in_hand p.held ++ l) same)
  step-sent p _ Step.cancelled = inl refl
  step-sent p _ (Step.ended w) = inl refl
  step-sent p _ (Step.round_begins now order a l d) = inl refl
  step-sent p _ (Step.visits now id rest l f) = elim (visit_route-cases now p.tracker id) [
    | inl same ↦
        inl
          (ap (λ (t : IdleTracker × Option Str). p.attempts ++ in_hand p.held ++ t.0.sleep_ch) same)
    | inr (due, fired, channel, recorded, metrics) ↦ inr (
      now,
      id,
      rest,
      (l, due, fired),
      refl,
      ap (λ w. p.attempts ++ in_hand p.held ++ w) channel
          ∙ sym (append_assoc (p.attempts ++ in_hand p.held) p.tracker.sleep_ch (id ∷ [])),
    )
  ]
  step-sent p _ (Step.counts id f) = inl refl
  step-sent p _ (Step.round_ends now l f) = inl refl
  step-sent p _ (Step.starts_loop w) = inl refl
  step-sent p _ Step.stops_loop = inl refl
  step-sent p _ (Step.loop_ends f) = inl refl
  step-sent p _ (Step.stopped_loop_ends f w) = inl refl
  step-sent p q (Step.receives _ f e) = inl (receive_next-sent p q f e)
  step-sent p q (Step.calls _ e) = inl (call_sender-sent answer p q e)

  -- What was due on the way to a state was so on the way to the next.
  WasDue-next : (s p q : Pipeline) (id : Str) → WasDue s p id → Step answer p q → WasDue s q id
  WasDue-next s p q id (o, now, rest, before, fires, after) step =
      (o, now, rest, before, fires, Reach.next after step)

  fired-WasDue :
      (s p q : Pipeline) (now : Time) (id : Str) (rest : List Str)
      → Reach answer s p
      → Fires p now id rest
      → visited now id rest p ≡ q
      → WasDue s q id
  fired-WasDue s p q now id rest before fires reached =
      (p, now, rest, before, fires, subst (Reach answer (visited now id rest p)) reached Reach.here)

  sent-WasDue :
      (s p : Pipeline)
      → sent s ≡ []
      → Reach answer s p
      → (id : Str) → In id (sent p)
      → WasDue s p id
  sent-WasDue s _ w Reach.here id h = absurd (rw w at h)
  sent-WasDue s _ w (Reach.next {p = o} {q = q} ms step) id h =
      let before : In id (sent o) → WasDue s q id =
        λ old. WasDue-next s o q id (sent-WasDue s o w ms id old) step in
      elim (step-sent o q step) [
        | inl same ↦ before (subst (In id) same h)
        | inr (now, i, rest, fires, reached, more) ↦
            elim (In-append_cases id (sent o) (i ∷ []) (subst (In id) more h)) [
              | inl old ↦ before old
              | inr (inl new) ↦
                  subst (WasDue s q) (sym new) (fired-WasDue s o q now i rest ms fires reached)
              | inr (inr none_left) ↦ absurd none_left
            ]
      ]

  -- From a pipeline in which nothing has been triggered, and where the coordinator is not started
  -- again before its last goroutine has ended: the sender is only ever called for a route that a
  -- round of checks, on the way to the present state, found idle for at least its timeout at the
  -- time of the round, and sent a trigger for.
  pub attempts_were_due :
      (s p : Pipeline)
      → s.tracker.sleep_ch ≡ []
      → s.held ≡ none
      → s.attempts ≡ []
      → Reach answer s p
      → (id : Str) → In id p.attempts
      → (q : Pipeline) × (now : Time) × (rest : List Str) × Reach answer s q
        × ((q.round ≡ some (record { now = now; order = id ∷ rest }))
            × (is_due now q.tracker id ≡ true)
            × ((visit_route now q.tracker id).1 ≡ some id))
        × Reach answer (visited now id rest q) p
  attempts_were_due s p w f a reach id h = sent-WasDue s p (rw (w, f, a) refl) reach id (
      In-append_left id (p.attempts ++ in_hand p.held) p.tracker.sleep_ch
        (In-append_left id p.attempts (in_hand p.held) h))

  -- The loop is done with what it holds, and then takes the next trigger.
  finish_trigger-held :
      (p : Pipeline)
      → finish_trigger answer p ≡ record p { attempts = p.attempts ++ in_hand p.held; held = none }
  unfolding finish_trigger call_sender handle_trigger
  finish_trigger-held p = elim (Option-cases p.held) [
    | inl free ↦ let same = append-nil p.attempts in ground arith
    | inr (busy, holds) ↦ ground arith
  ]

  abbrev after_next : Pipeline → Str → List Str → Pipeline
  after_next p id rest = record p {
    tracker = record p.tracker { sleep_ch = rest };
    attempts = p.attempts ++ id ∷ [];
    held = none;
  }

  abbrev next_of : Pipeline → Option Pipeline
  next_of p = elim (receive_next p) [ none ↦ none | some q ↦ call_sender answer q ]

  take_trigger-held :
      (p : Pipeline)
      → take_trigger answer p
        ≡ next_of (record p { attempts = p.attempts ++ in_hand p.held; held = none })
  unfolding take_trigger
  take_trigger-held p = ap next_of (finish_trigger-held p)

  takes_next :
      (p : Pipeline) (id : Str) (rest : List Str)
      → p.coordinator.loop ≡ true
      → p.held ≡ none
      → p.tracker.sleep_ch ≡ id ∷ rest
      → next_of p ≡ some (after_next p id rest)
  unfolding receive_next receive_trigger call_sender handle_trigger
  takes_next p id rest lives free head = ground arith

  -- While the loop lives, it takes the trigger that waits first, once it is done with the one that
  -- it holds, and has the route of it put to sleep also when a request has come for this route since
  -- and it is not idle.
  pub trigger_outlives_activity :
      (p : Pipeline) (id : Str) (rest : List Str) (now : Time)
      → p.coordinator.loop ≡ true
      → p.tracker.sleep_ch ≡ id ∷ rest
      → 1 ≤ now
      → (q : Pipeline) × (take_trigger answer
            (record p { tracker = record_activity p.tracker id now })
          ≡ some q)
        × (q.attempts ≡ p.attempts ++ in_hand p.held ++ id ∷ [])
        × (is_due now q.tracker id ≡ false)
  unfolding record_activity is_idle compute_idle_time time_sub
  trigger_outlives_activity p id rest now lives head late =
      let seen = record_activity p.tracker id now in
      let active : is_due now seen id ≡ false = elim (Option-cases (lookup id p.tracker.routes)) [
        | inl n ↦
            let at =
              lookup-insert id id (record { idle_timeout = pos 0; last_seen = now })
                p.tracker.routes in
            ground (arith, str_eq_iff id id)
        | inr (e, f) ↦
            let at = lookup-insert id id (record e { last_seen = now }) p.tracker.routes in
            ground (arith, str_eq_iff id id)
      ] in
      let waits : seen.sleep_ch ≡ id ∷ rest = ground arith in
      let finished = record p {
        tracker = seen;
        attempts = p.attempts ++ in_hand p.held;
        held = none;
      } in
      let turn = take_trigger-held (record p { tracker = seen }) in
      (
        after_next finished id rest,
        turn ∙ takes_next finished id rest lives refl waits,
        refl,
        active,
      )
