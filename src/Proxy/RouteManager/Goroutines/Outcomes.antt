-- ===== src/Proxy/RouteManager/Goroutines/Outcomes.antt =====
-- What startRoute can find after its wait (internal/proxy/route_manager.go).
use smaug.Prelude.{false, ◌≡◌, ◌↔◌, refl, arith, ◌∙◌, sym}
use smaug.Proxy.RouteManager.Listeners.{Listener, ListenerState, Hang, Startup, set_state}
use smaug.Proxy.RouteManager.{settle, startup_error}
use smaug.Proxy.RouteManager.Goroutines.{
  Goroutines, Move, Moves, spawn, begin_run, probe_read, probe_write, probe_close, serve_fail,
  fail_close, close_started, start_answer,
}
use smaug.Proxy.RouteManager.Goroutines.Shapes.{Shape-IsNamed, moves-IsUnstopped}

abbrev pub IsNew : Listener → Type 0
IsNew l = (l.state ≡ ListenerState.initial) × (l.start_err ≡ false) × (l.started ≡ false)

-- Schedules of the goroutines, one for each outcome.
module _ (l : Listener) where
  abbrev Comes : Listener → Type 0
  Comes x = (g : Goroutines) × Moves (spawn l) g × (g.listener ≡ x)

  begun : Moves (spawn l) (begin_run (spawn l))
  unfolding spawn
  begun = Moves.then Moves.here (Move.begins refl)

  read : Moves (spawn l) (probe_read (begin_run (spawn l)))
  unfolding begin_run
  read = Moves.then begun (Move.reads refl)

  written : Moves (spawn l) (probe_write (probe_read (begin_run (spawn l))))
  unfolding begin_run probe_read spawn set_state
  written = Moves.then read (Move.writes refl)

  failed : Moves (spawn l) (serve_fail (begin_run (spawn l)))
  unfolding begin_run serve_fail
  failed = Moves.then (Moves.then begun (Move.bind_fails refl)) (Move.writes_error refl)

  failed_after_read : Moves (spawn l) (serve_fail (probe_read (begin_run (spawn l))))
  unfolding begin_run probe_read serve_fail
  failed_after_read = Moves.then (Moves.then read (Move.bind_fails refl)) (Move.writes_error refl)

  overwritten : Moves (spawn l) (probe_write (serve_fail (probe_read (begin_run (spawn l)))))
  unfolding begin_run probe_read serve_fail spawn set_state
  overwritten = Moves.then failed_after_read (Move.writes refl)

  settle-Comes : (u : Startup) → Comes (settle u l)
  unfolding settle spawn begin_run probe_read probe_write probe_close serve_fail fail_close
      set_state close_started
  settle-Comes Startup.comes_up = (_, Moves.then written (Move.closes refl), refl)
  settle-Comes Startup.fails = (_, Moves.then failed (Move.tells refl), refl)
  settle-Comes Startup.fails_unseen =
      (_, Moves.then (Moves.then overwritten (Move.closes refl)) (Move.tells refl), refl)
  settle-Comes (Startup.hangs Hang.unscheduled) = (_, Moves.here, refl)
  settle-Comes (Startup.hangs Hang.binding) = (_, begun, refl)
  settle-Comes (Startup.hangs Hang.marked) = (_, written, refl)
  settle-Comes (Startup.hangs Hang.failing) = (_, failed, refl)
  settle-Comes (Startup.hangs Hang.overwritten) = (_, overwritten, refl)

-- The states that a new listener can be in when the wait of startRoute ends, while nothing stops the
-- listener, are exactly those that `settle` gives, and what startRoute then returns is what
-- `startup_error` says: nil also where the server has failed and the probe has marked it as running
-- since.
pub start_outcomes :
    (l : Listener)
    → IsNew l
    → ((x : Listener)
        → ((g : Goroutines) × Moves (spawn l) g × (g.listener ≡ x))
          ↔ ((u : Startup) × (x ≡ settle u l)))
      × ((u : Startup) → start_answer (settle u l) ≡ startup_error u)
unfolding settle startup_error start_answer
start_outcomes l (initial, no_err, unstarted) = (
  (λ x. (
    (λ (g, ms, e).
        let (shape, open_server) = moves-IsUnstopped l g ms in
        rw e at (Shape-IsNamed l g.runner g.probe g.listener shape)),
    (λ (u, e). let (g, ms, c) = settle-Comes l u in (g, ms, c ∙ sym e)),
  )),
  (λ u. ground arith),
)
