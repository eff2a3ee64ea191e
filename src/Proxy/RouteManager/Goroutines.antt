-- ===== src/Proxy/RouteManager/Goroutines.antt =====
-- The goroutines of one listener (runListener of internal/proxy/route_manager.go): the one that
-- serves and the probe that it starts, which marks the listener as running after 100 ms. Each step
-- is one critical section of the listener's lock, one close of its channel, or what the HTTP server
-- does next.
pub mod Shapes
pub mod Outcomes
pub mod Stopped
use smaug.Prelude.{Bool, true, false, List, [], ◌∷◌, Option, none, some, ◌≡◌, if◌then◌else◌}
use smaug.Proxy.RouteManager.Listeners.{Listener, ListenerState, RouteError, set_state}
use smaug.Proxy.RouteManager.{shut_listener}

-- The serving goroutine: not scheduled yet, before its port is bound, in its accept loop, after
-- ListenAndServe has returned an error, after the write of this error, or at its end.
pub data Runner : Type 0 where
  spawned binding accepting erring failing ended : Runner

-- The probe: not started yet, asleep, after it read the state `starting`, after its write, or done.
pub data Probe : Type 0 where
  unstarted asleep saw_starting marked done : Probe

-- `shut` tells whether the server's Shutdown or Close has been called.
pub record Goroutines : Type 0 where
  pub listener : Listener
  pub runner : Runner
  pub probe : Probe
  pub shut : Bool

-- What `go m.runListener(listener)` starts with.
unfoldable pub spawn : Listener → Goroutines
spawn l = record { listener = l; runner = Runner.spawned; probe = Probe.unstarted; shut = false }

abbrev is_starting : ListenerState → Bool
is_starting ListenerState.starting = true
is_starting _ = false

-- The first lines: the state is `starting`, and the probe sleeps.
unfoldable pub begin_run : Goroutines → Goroutines
begin_run g = record g {
  listener = set_state ListenerState.starting g.listener;
  runner = Runner.binding;
  probe = Probe.asleep;
}

-- The probe reads the state in one critical section and writes it in another.
unfoldable pub probe_read : Goroutines → Goroutines
probe_read g = record g {
  probe = if is_starting g.listener.state then Probe.saw_starting else Probe.done;
}

unfoldable pub probe_write : Goroutines → Goroutines
probe_write g = record g {
  listener = set_state ListenerState.running g.listener;
  probe = Probe.marked;
}

-- startedOnce.Do(func() { close(listener.started) })
unfoldable pub close_started : Listener → Listener
close_started l = record l { started = true }

unfoldable pub probe_close : Goroutines → Goroutines
probe_close g = record g { listener = close_started g.listener; probe = Probe.done }

-- The error of ListenAndServe, which is not ErrServerClosed, is written.
unfoldable pub serve_fail : Goroutines → Goroutines
serve_fail g = record g {
  listener = record g.listener { state = ListenerState.failed; start_err = true };
  runner = Runner.failing;
}

unfoldable pub fail_close : Goroutines → Goroutines
fail_close g = record g { listener = close_started g.listener; runner = Runner.ended }

-- The server's port is bound; ListenAndServe returns an error, or, once the server is shut down,
-- ErrServerClosed.
abbrev bound : Goroutines → Goroutines
bound g = record g { runner = Runner.accepting }

abbrev erred : Goroutines → Goroutines
erred g = record g { runner = Runner.erring }

abbrev served : Goroutines → Goroutines
served g = record g { runner = Runner.ended }

-- A step of one of the two goroutines. The server fails while it binds its port, or in its accept
-- loop when it has not been shut down; it reports that it is closed only when it has been.
pub data Move (g : Goroutines) : Goroutines → Type 0 where
  begins : g.runner ≡ Runner.spawned → Move g (begin_run g)
  binds : g.runner ≡ Runner.binding → Move g (bound g)
  bind_fails : g.runner ≡ Runner.binding → Move g (erred g)
  accept_fails : g.runner ≡ Runner.accepting → g.shut ≡ false → Move g (erred g)
  writes_error : g.runner ≡ Runner.erring → Move g (serve_fail g)
  tells : g.runner ≡ Runner.failing → Move g (fail_close g)
  closed_early : g.runner ≡ Runner.binding → g.shut ≡ true → Move g (served g)
  closed : g.runner ≡ Runner.accepting → g.shut ≡ true → Move g (served g)
  reads : g.probe ≡ Probe.asleep → Move g (probe_read g)
  writes : g.probe ≡ Probe.saw_starting → Move g (probe_write g)
  closes : g.probe ≡ Probe.marked → Move g (probe_close g)

pub data Moves (s : Goroutines) : Goroutines → Type 0 where
  here : Moves s s
  then : {g h : Goroutines} → Moves s g → Move g h → Moves s h

-- The goroutines of a listener that stopRoute or shutdownRoutes has stopped.
unfoldable pub shut_down : Goroutines → Goroutines
shut_down g = record g { listener = shut_listener g.listener; shut = true }

-- What startRoute returns once its wait is over; the state is what it then reads.
unfoldable pub start_answer : Listener → Option RouteError
start_answer l =
    if l.started
    then elim l.state [ ListenerState.failed ↦ some RouteError.start_failed | _ ↦ none ]
    else some RouteError.start_timeout
