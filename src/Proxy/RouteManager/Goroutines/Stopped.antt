-- ===== src/Proxy/RouteManager/Goroutines/Stopped.antt =====
-- A listener that has been stopped, and what its goroutines still do
-- (internal/proxy/route_manager.go).
use smaug.Prelude.{Bool, true, false, ◌≡◌, ◌≢◌, refl}
use smaug.Proxy.RouteManager.Listeners.{ListenerState, set_state}
use smaug.Proxy.RouteManager.Goroutines.{
  Goroutines, Runner, Probe, Move, Moves, begin_run, probe_read, probe_write, probe_close,
  close_started, shut_down,
}

-- The serving goroutine is past the binding of the port, and has no error to write.
abbrev pub is_bound : Runner → Bool
is_bound Runner.spawned = false
is_bound Runner.binding = false
is_bound Runner.erring = false
is_bound _ = true

abbrev pub IsQuiet : Goroutines → Type 0
IsQuiet g = (is_bound g.runner ≡ true) × (g.probe ≢ Probe.saw_starting)

abbrev HasStopped : Goroutines → Type 0
HasStopped g = (g.listener.state ≡ ListenerState.stopped) × (g.shut ≡ true)

module _ (g : Goroutines) where
  -- However the goroutines go on, the listener is stopped.
  abbrev StaysStopped : Type 0
  StaysStopped = (h : Goroutines) → Moves (shut_down g) h → h.listener.state ≡ ListenerState.stopped

-- The goroutine of a listener that is stopped before it is scheduled ends at once, and leaves the
-- listener marked as running.
early_stop_revives :
    (g : Goroutines)
    → g.runner ≡ Runner.spawned
    → (h : Goroutines) × Moves (shut_down g) h
      × (h.runner ≡ Runner.ended)
      × (h.probe ≡ Probe.done)
      × (h.listener.state ≡ ListenerState.running)
unfolding begin_run probe_read probe_write probe_close shut_down close_started set_state
early_stop_revives g e =
    let begun = Moves.then Moves.here (Move.begins e) in
    let closed = Moves.then begun (Move.closed_early refl refl) in
    let read = Moves.then closed (Move.reads refl) in
    let written = Moves.then read (Move.writes refl) in
    (_, Moves.then written (Move.closes refl), refl, refl, refl)
