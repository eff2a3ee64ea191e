-- ===== src/Tests/Goroutines.antt =====
-- Runs of the goroutines of one listener.
use smaug.Prelude.{false, refl, ◌≡◌, ◌↔◌}
use smaug.Proxy.RouteManager.Listeners.{Listener, Startup}
use smaug.Proxy.RouteManager.{settle, startup_error, create_listener}
use smaug.Proxy.RouteManager.Goroutines.{Goroutines, Runner, Probe, Moves, spawn, start_answer}
use smaug.Proxy.RouteManager.Goroutines.Outcomes.{IsNew, start_outcomes}
use smaug.Tests.Data.{web, idle_manager}

abbrev web_listener : Listener
web_listener = create_listener idle_manager web

web_listener-IsNew : IsNew web_listener
unfolding create_listener
web_listener-IsNew = (refl, refl, refl)

start_outcomes_example :
    ((x : Listener)
      → ((g : Goroutines) × Moves (spawn web_listener) g × (g.listener ≡ x))
        ↔ ((u : Startup) × (x ≡ settle u web_listener)))
    × ((u : Startup) → start_answer (settle u web_listener) ≡ startup_error u)
start_outcomes_example = start_outcomes web_listener web_listener-IsNew

-- It accepts connections, and its probe has read the state and not written it yet.
abbrev probed : Goroutines
probed = record {
  listener = web_listener;
  runner = Runner.accepting;
  probe = Probe.saw_starting;
  shut = false;
}
