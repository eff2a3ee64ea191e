-- ===== src/Proxy/RouteManager.antt =====
-- internal/proxy/route_manager.go. Listeners are shared by pointer between the list and the map of
-- routes: they stand in a heap, and both hold numbers. What the HTTP servers do is an argument.
pub mod Listeners
pub mod Changes
pub mod Status
pub mod Stopping
pub mod Starting
pub mod Reloading
pub mod Synced
pub mod Removing
pub mod Marked
pub mod Invariant
pub mod Kept
pub mod Runs
pub mod Goroutines
pub mod Unchanged
pub mod Closers
use smaug.Prelude.{
  ℕ, suc, ◌+◌, ℤ, pos, leb_ℤ, ◌==◌, Str, is_empty, contains, Bool, true, false, not, ◌&&◌, ◌||◌,
  List, [], ◌∷◌, ◌++◌, map, Option, none, some, if◌then◌else◌, keep, count_if, length,
}
use smaug.Prelude.Map.{Map, lookup, insert, delete}
use smaug.Config.Types.{Config, Route, Server}
use smaug.Proxy.Reload.{RouteChanges, route_key, detect_changes}
use smaug.Proxy.WakeCoordinator.{
  WakeCoordinator, WakeCoordinatorConfig, Made, Dependencies, new_wake_coordinator, close,
}
use Listeners.{
  ListenerState, RouteError, Listener, RouteManager, World, Hang, Startup, set_state, modify,
}

abbrev pub default_wake_timeout : ℤ
default_wake_timeout = pos 30_000_000_000

abbrev pub default_wake_debounce : ℤ
default_wake_debounce = pos 5_000_000_000

abbrev pub or_default : ℤ → ℤ → ℤ
or_default z d = if leb_ℤ z (pos 0) then d else z

-- What NewWakeCoordinator is given for a server; `sender` tells whether the options hold a sender.
unfoldable pub wake_coordinator_for : Bool → Route → Server → Option WakeCoordinator
wake_coordinator_for sender route server =
    let wol = server.wake_on_lan in
    elim (new_wake_coordinator
      (record {
        server_id = route.server;
        machine_id = wol.machine_id;
        wake_timeout = or_default wol.timeout default_wake_timeout;
        debounce = or_default wol.debounce default_wake_debounce;
        poll_interval = pos 0;
      })
      (record { downstream = true; wol_sender = sender; store = true; logger = true })) [
        | Made.made c ↦ some c
        | Made.refused e ↦ none
      ]

-- wrapWithWakeCoordinator: `none` is the plain handler with a nil closer.
unfoldable pub wrap_with_wake_coordinator :
    Option Bool → Option Config → Route → Option WakeCoordinator
wrap_with_wake_coordinator none cfg route = none
wrap_with_wake_coordinator (some sender) none route = none
wrap_with_wake_coordinator (some sender) (some cfg) route =
    if is_empty route.server then none else elim (lookup route.server cfg.servers) [
      | none ↦ none
      | some server ↦
          if server.wake_on_lan.enabled then wake_coordinator_for sender route server else none
    ]

unfoldable pub create_listener : RouteManager → Route → Listener
create_listener m route = record {
  route = route;
  state = ListenerState.initial;
  start_err = false;
  started = false;
  closer = wrap_with_wake_coordinator m.wake_options m.config route;
}

-- The setters do nothing once the manager runs.
unfoldable pub set_wake_options : RouteManager → Bool → RouteManager
set_wake_options m sender = if m.running then m else record m { wake_options = some sender }

unfoldable pub set_idle_tracker : RouteManager → RouteManager
set_idle_tracker m = if m.running then m else record m { idle_tracker = true }

unfoldable pub set_metrics : RouteManager → Bool → RouteManager
set_metrics m reg = if m.running then m else record m { metrics = reg }

-- A listener is allocated, listed and put under its key.
unfoldable pub add_listener : Route → RouteManager → RouteManager
add_listener route m = record m {
  listeners = λ j. if m.next == j then create_listener m route else m.listeners j;
  next = m.next + 1;
  routes = m.routes ++ m.next ∷ [];
  route_map = insert (route_key route) m.next m.route_map;
}

unfoldable pub add_listeners : List Route → RouteManager → RouteManager
add_listeners [] m = m
add_listeners (r ∷ rs) m = add_listeners rs (add_listener r m)

-- Start; the listeners' goroutines then run on their own.
unfoldable pub start : RouteManager → RouteManager × Option RouteError
start m = if m.running then (m, some RouteError.already_running) else elim m.config [
  | none ↦ (m, some RouteError.reload_failed)
  | some cfg ↦ (add_listeners cfg.routes (record m { running = true; routes = [] }), none)
]

-- The closer of a listener is closed after its server is down.
unfoldable pub shut_listener : Listener → Listener
shut_listener l = record l {
  state = ListenerState.stopped;
  closer = elim l.closer [ none ↦ none | some c ↦ some (close c) ];
}

-- shutdownRoutes: a server whose Shutdown fails is closed by force.
unfoldable pub shutdown_routes : List ℕ → RouteManager → RouteManager
shutdown_routes [] m = m
shutdown_routes (i ∷ is) m = shutdown_routes is (modify i shut_listener m)

-- The select of waitForShutdown; `in_time` tells which case it takes.
unfoldable pub wait_for_shutdown : Bool → Option RouteError
wait_for_shutdown true = none
wait_for_shutdown false = some RouteError.shutdown_timeout

-- Stop; `in_time` tells whether every goroutine ends before the shutdown timeout.
unfoldable pub stop : Bool → RouteManager → RouteManager × Option RouteError
stop in_time m =
    if m.running
    then (shutdown_routes m.routes (record m { running = false }), wait_for_shutdown in_time)
    else (m, some RouteError.not_running)

unfoldable pub stop_route : World → Str → RouteManager → RouteManager × Option RouteError
stop_route w key m = elim (lookup key m.route_map) [
  | none ↦ (m, some RouteError.route_not_found)
  | some i ↦
      if w.shuts_down i
      then (modify i shut_listener m, none)
      else (modify i (set_state ListenerState.stopping) m, some RouteError.shutdown_failed)
]

-- What becomes of a new listener while startRoute waits for it.
unfoldable pub settle : Startup → Listener → Listener
settle Startup.comes_up l = record l { state = ListenerState.running; started = true }
settle Startup.fails l = record l { state = ListenerState.failed; start_err = true; started = true }
settle Startup.fails_unseen l = record l {
  state = ListenerState.running;
  start_err = true;
  started = true;
}
settle (Startup.hangs Hang.unscheduled) l = l
settle (Startup.hangs Hang.binding) l = record l { state = ListenerState.starting }
settle (Startup.hangs Hang.marked) l = record l { state = ListenerState.running }
settle (Startup.hangs Hang.failing) l = record l { state = ListenerState.failed; start_err = true }
settle (Startup.hangs Hang.overwritten) l = record l {
  state = ListenerState.running;
  start_err = true;
}

unfoldable pub startup_error : Startup → Option RouteError
startup_error Startup.comes_up = none
startup_error Startup.fails = some RouteError.start_failed
startup_error Startup.fails_unseen = none
startup_error (Startup.hangs h) = some RouteError.start_timeout

abbrev pub is_stopped : ListenerState → Bool
is_stopped ListenerState.stopped = true
is_stopped _ = false

unfoldable pub drop_stopped : RouteManager → RouteManager
drop_stopped m = record m { routes = keep (λ i. not (is_stopped (m.listeners i).state)) m.routes }

unfoldable pub start_route : World → Route → RouteManager → RouteManager × Option RouteError
start_route w route m =
    let added = add_listener route (drop_stopped m) in
    (modify m.next (settle (w.starts_up m.next)) added, startup_error (w.starts_up m.next))
