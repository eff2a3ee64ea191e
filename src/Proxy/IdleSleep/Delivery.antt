-- ===== src/Proxy/IdleSleep/Delivery.antt =====
-- Every trigger is delivered once and in order.
use mathlib.Core.List.{append_assoc, append-nil}
use smaug.Prelude.{
  Time, Str, true, List, List-cases, [], ◌∷◌, ◌++◌, Option, none, some, Option-cases, ◌≡◌, ◌⊎◌, inl,
  inr, refl, sym, ap, ◌∙◌, arith,
}
use smaug.Prelude.Map.{lookup}
use smaug.Proxy.IdleTracker.{
  IdleTracker, register_route, record_activity, start, stop, context_done, cancelled_ends, emit,
  check_route, count_trigger,
}
use smaug.Proxy.IdleTracker.Checks.{is_due}
use smaug.Proxy.SleepCoordinator.{handle_trigger}
use smaug.Proxy.IdleSleep.{
  Pipeline, receive_trigger, receive_next, call_sender, visit_route, visited, Step, Reach,
}

abbrev pub in_hand : Option Str → List Str
in_hand none = []
in_hand (some id) = id ∷ []

-- The triggers that have been sent: those that the sender was called for, the one that the loop
-- holds, and those that wait.
abbrev pub sent : Pipeline → List Str
sent p = p.attempts ++ in_hand p.held ++ p.tracker.sleep_ch

-- A visit with the count that follows it is the body of the loop of checkIdleRoutes.
check_route-visit :
    (now : Time) (t : IdleTracker) (id : Str)
    → check_route now t id ≡ (elim (visit_route now t id).1 [
      | none ↦ (visit_route now t id).0
      | some i ↦ count_trigger (visit_route now t id).0 i
    ])
unfolding check_route emit visit_route
check_route-visit now t id = elim (Option-cases (lookup id t.routes)) [
  | inl n ↦ ground arith
  | inr (e, f) ↦ ground arith
]

-- What a visit sends and what it leaves.
pub visit_route-cases :
    (now : Time) (t : IdleTracker) (id : Str)
    → ((visit_route now t id ≡ (t, none)))
      ⊎ ((is_due now t id ≡ true)
          × ((visit_route now t id).1 ≡ some id)
          × ((visit_route now t id).0.sleep_ch ≡ t.sleep_ch ++ id ∷ [])
          × ((visit_route now t id).0.recorded ≡ t.recorded)
          × ((visit_route now t id).0.metrics ≡ t.metrics))
unfolding visit_route
visit_route-cases now t id = elim (Option-cases (lookup id t.routes)) [
  | inl n ↦ ground arith
  | inr (e, f) ↦ ground arith
]

-- A trigger moves from the channel to the loop, and from there to the attempts.
received :
    (a b w v : List Str) (h g : Option Str) (id : Str)
    → h ≡ none
    → g ≡ some id
    → b ≡ a
    → w ≡ id ∷ v
    → b ++ in_hand g ++ v ≡ a ++ in_hand h ++ w
received a b w v h g id free holds tried head =
    rw (free, holds, tried, head)
      (append_assoc a (id ∷ []) v ∙ ap (λ l. l ++ id ∷ v) (sym (append-nil a)))

called :
    (a b w v : List Str) (h g : Option Str) (id : Str)
    → h ≡ some id
    → g ≡ none
    → b ≡ a ++ id ∷ []
    → v ≡ w
    → b ++ in_hand g ++ v ≡ a ++ in_hand h ++ w
called a b w v h g id holds free tried same =
    rw (holds, free, tried, same) (ap (λ l. l ++ w) (append-nil (a ++ id ∷ [])))

receive_next-some :
    (p q : Pipeline)
    → receive_next p ≡ some q
    → (id : Str) × (p.tracker.sleep_ch ≡ id ∷ q.tracker.sleep_ch)
      × (q.held ≡ some id)
      × (q.attempts ≡ p.attempts)
      × (q.pending ≡ p.pending)
      × (q.tracker.recorded ≡ p.tracker.recorded)
      × (q.tracker.metrics ≡ p.tracker.metrics)
unfolding receive_next receive_trigger
receive_next-some p q e = elim (List-cases p.tracker.sleep_ch) [
  | inl empty ↦ absurd (ground arith)
  | inr (id, rest, head) ↦
      (id, ground arith, ground arith, ground arith, ground arith, ground arith, ground arith)
]

pub receive_next-sent : (p q : Pipeline) → p.held ≡ none → receive_next p ≡ some q → sent q ≡ sent p
receive_next-sent p q free e =
    let (id, head, held, tried, pending, recorded, metrics) = receive_next-some p q e in
    received p.attempts q.attempts p.tracker.sleep_ch q.tracker.sleep_ch p.held q.held id free held
      tried head

module _ {E : Type 0} (answer : Str → List Str → Option E) where
  call_sender-some :
      (p q : Pipeline)
      → call_sender answer p ≡ some q
      → (id : Str) × (p.held ≡ some id)
        × (q.attempts ≡ p.attempts ++ id ∷ [])
        × (q.held ≡ none)
        × (q.pending ≡ p.pending)
        × (q.tracker ≡ p.tracker)
  unfolding call_sender handle_trigger
  call_sender-some p q e = elim (Option-cases p.held) [
    | inl free ↦ absurd (ground arith)
    | inr (id, held) ↦ (id, held, ground arith, ground arith, ground arith, ground arith)
  ]

  pub call_sender-sent : (p q : Pipeline) → call_sender answer p ≡ some q → sent q ≡ sent p
  call_sender-sent p q e =
      let (id, held, tried, free, pending, same) = call_sender-some p q e in
      called p.attempts q.attempts p.tracker.sleep_ch q.tracker.sleep_ch p.held q.held id held free
        tried (ap (λ (t : IdleTracker). t.sleep_ch) same)

  -- The registry is set, and the triggers that have been counted, with the one that is about to be,
  -- are those that have been sent.
  abbrev IsCounted : Pipeline → Type 0
  IsCounted p = (p.tracker.metrics ≡ true) × (p.tracker.recorded ++ in_hand p.pending ≡ sent p)

  -- A trigger that is sent at the end of the channel.
  one_more :
      (recorded tried held waiting : List Str) (id : Str)
      → recorded ++ [] ≡ tried ++ held ++ waiting
      → recorded ++ id ∷ [] ≡ tried ++ held ++ (waiting ++ id ∷ [])
  one_more recorded tried held waiting id e =
      ap (λ l. l ++ id ∷ []) (sym (append-nil recorded) ∙ e)
      ∙ append_assoc (tried ++ held) waiting (id ∷ [])

  visited-IsCounted :
      (p : Pipeline) (now : Time) (id : Str) (rest : List Str)
      → p.pending ≡ none
      → IsCounted p
      → IsCounted (visited now id rest p)
  visited-IsCounted p now id rest free (m, c) = elim (visit_route-cases now p.tracker id) [
    | inl same ↦ let c0 = rw free at c in rw same (m, c0)
    | inr (due, fired, channel, recorded, metrics) ↦
        let c0 = rw free at c in
        (
          metrics ∙ m,
          rw (fired, recorded, channel)
              (one_more p.tracker.recorded p.attempts (in_hand p.held) p.tracker.sleep_ch id c0),
        )
  ]

  counted_one :
      (t : IdleTracker) (id : Str) (o : Option Str) (all : List Str)
      → o ≡ some id
      → t.metrics ≡ true
      → t.recorded ++ in_hand o ≡ all
      → (count_trigger t id).recorded ++ [] ≡ all
  counted_one t id o all f m c =
      let c0 = rw f at c in rw m (append-nil (t.recorded ++ id ∷ []) ∙ c0)

  called_counts :
      (p q : Pipeline)
      → p.tracker.recorded ++ in_hand p.pending ≡ sent p
      → q.pending ≡ p.pending
      → sent q ≡ sent p
      → q.tracker.recorded ≡ p.tracker.recorded
      → q.tracker.recorded ++ in_hand q.pending ≡ sent q
  called_counts p q c pending same recorded = rw (recorded, pending) (c ∙ sym same)

  step-IsCounted : (p q : Pipeline) → Step answer p q → IsCounted p → IsCounted q
  unfolding register_route record_activity start stop context_done cancelled_ends
  step-IsCounted p _ (Step.registers id timeout l) c = ground arith
  step-IsCounted p _ (Step.records id now l) c = ground arith
  step-IsCounted p _ (Step.starts l) c = ground arith
  step-IsCounted p _ (Step.stops l) c = ground arith
  step-IsCounted p _ Step.cancelled c = c
  step-IsCounted p _ (Step.ended w) c = c
  step-IsCounted p _ (Step.round_begins now order a l d) c = c
  step-IsCounted p _ (Step.visits now id rest l f) c = visited-IsCounted p now id rest f c
  step-IsCounted p _ (Step.counts id f) (m, c) =
      (m, counted_one p.tracker id p.pending (sent p) f m c)
  step-IsCounted p _ (Step.round_ends now l f) c = c
  step-IsCounted p _ (Step.starts_loop w) c = c
  step-IsCounted p _ Step.stops_loop c = c
  step-IsCounted p _ (Step.loop_ends f) c = c
  step-IsCounted p _ (Step.stopped_loop_ends f w) c = c
  step-IsCounted p q (Step.receives _ f e) (m, c) =
      let (id, head, held, tried, pending, recorded, metrics) = receive_next-some p q e in
      let same = receive_next-sent p q f e in
      (metrics ∙ m, called_counts p q c pending same recorded)
  step-IsCounted p q (Step.calls _ e) (m, c) =
      let (id, held, tried, free, pending, tracker) = call_sender-some p q e in
      let same = call_sender-sent p q e in
      (
        ap (λ (t : IdleTracker). t.metrics) tracker ∙ m,
        called_counts p q c pending same (ap (λ (t : IdleTracker). t.recorded) tracker),
      )

  -- From a pipeline with a registry in which nothing has been triggered, however the requests, the
  -- steps of the checks and the loop interleave, where the coordinator is not started again before
  -- its last goroutine has ended: the triggers that have been counted, and after them the one that
  -- was sent and is still to be counted, are exactly those that the sender was called for, then the
  -- one that the loop has taken, then those that wait, each once and in this order.
  pub triggers_delivered :
      (s p : Pipeline)
      → s.tracker.metrics ≡ true
      → (s.tracker.recorded ≡ []) × (s.pending ≡ none)
      → (s.tracker.sleep_ch ≡ []) × (s.held ≡ none)
      → s.attempts ≡ []
      → Reach answer s p
      → p.tracker.recorded ++ in_hand p.pending ≡ p.attempts ++ in_hand p.held ++ p.tracker.sleep_ch
  triggers_delivered s p m (r, f) (w, h) a reach = (counted p reach).1
    where
      counted : (q : Pipeline) → Reach answer s q → IsCounted q
      counted _ Reach.here = (m, rw (r, f, w, h, a) refl)
      counted _ (Reach.next {p = o} {q = q} ms step) = step-IsCounted o q step (counted o ms)
