-- ===== src/Proxy/SleepCoordinator/Loop.antt =====
-- What the loop makes of the triggers.
use mathlib.Core.List.{append_assoc, append-nil}
use smaug.Prelude.{Str, List, [], ◌∷◌, ◌++◌, map, Option, ◌≡◌, sym, ◌∙◌}
use smaug.Proxy.SleepCoordinator.{LoopEvent, handle_trigger, run_loop}

-- The loop goes on after this event.
abbrev pub GoesOn : LoopEvent → Type 0
GoesOn LoopEvent.context_ended = ⊥
GoesOn LoopEvent.triggers_closed = ⊥
GoesOn (LoopEvent.triggered route_id) = Unit

-- Whatever the sender answers, the loop calls it once for each trigger that comes before the end,
-- in order, and for none after it. Here the state of the sender is the list of its calls.
pub every_trigger_attempted :
    {E : Type 0} (answer : Str → List Str → Option E) (ids : List Str) (end : LoopEvent)
    (rest : List LoopEvent) (calls : List Str)
    → ¬ GoesOn end
    → run_loop
        (λ id log. (log ++ id ∷ [], answer id log))
        (map LoopEvent.triggered ids ++ end ∷ rest)
        calls
      ≡ calls ++ ids
unfolding run_loop handle_trigger
every_trigger_attempted answer [] LoopEvent.context_ended rest calls e = sym (append-nil calls)
every_trigger_attempted answer [] LoopEvent.triggers_closed rest calls e = sym (append-nil calls)
every_trigger_attempted answer [] (LoopEvent.triggered id) rest calls e = absurd (e tt)
every_trigger_attempted answer (id ∷ ids) end rest calls e =
    every_trigger_attempted answer ids end rest (calls ++ id ∷ []) e
    ∙ append_assoc calls (id ∷ []) ids
