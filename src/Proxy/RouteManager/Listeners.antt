-- ===== src/Proxy/RouteManager/Listeners.antt =====
-- The listeners of a route manager and its state.
use smaug.Prelude.{
  ℕ, pos, ◌==◌, Bool, false, not, List, [], Option, none, some, Str, str, if◌then◌else◌,
}
use smaug.Prelude.Map.{Map}
use smaug.Config.Types.{Config, Route}
use smaug.Proxy.WakeCoordinator.{WakeCoordinator}

pub data ListenerState : Type 0 where
  initial starting running stopping stopped failed : ListenerState

pub data RouteError : Type 0 where
  already_running not_running shutdown_timeout reload_failed : RouteError
  route_not_found shutdown_failed start_failed start_timeout : RouteError

pub record Listener : Type 0 where
  pub route : Route
  pub state : ListenerState
  pub start_err : Bool
  pub started : Bool  -- whether the channel is closed
  pub closer : Option WakeCoordinator

pub record RouteManager : Type 0 where
  pub config : Option Config  -- what the configuration manager returns
  pub wake_options : Option Bool  -- set, and with a sender
  pub idle_tracker : Bool
  pub metrics : Bool
  pub running : Bool  -- whether `cancel` is set
  pub listeners : ℕ → Listener  -- the heap
  pub next : ℕ
  pub routes : List ℕ
  pub route_map : Map ℕ

-- How far the goroutines of a listener have come when startRoute gives up waiting for them: they are
-- not scheduled yet, the port is being bound, or the channel is not closed yet by the probe, by the
-- server that has failed, or after both.
pub data Hang : Type 0 where
  unscheduled binding marked failing overwritten : Hang

-- How a listener fares that startRoute waits for: it serves, its port cannot be bound, that goes
-- unseen since the probe overwrites the state, or it does not report in time.
pub data Startup : Type 0 where
  comes_up fails fails_unseen : Startup
  hangs : Hang → Startup

-- The servers' part: which shut down when asked to, and how each comes up.
pub record World : Type 0 where
  pub shuts_down : ℕ → Bool
  pub starts_up : ℕ → Startup

unfoldable pub set_state : ListenerState → Listener → Listener
set_state s l = record l { state = s }

-- A write through the pointer of listener `i`.
unfoldable pub modify : ℕ → (Listener → Listener) → RouteManager → RouteManager
modify i f m = record m { listeners = λ j. if i == j then f (m.listeners i) else m.listeners j }

pub data MissingDependency : Type 0 where
  config_manager logger middleware health_store : MissingDependency

-- What NewRouteManager is given, and whether it is not nil.
pub record ManagerDependencies : Type 0 where
  pub config_mgr : Option Config
  pub has_logger : Bool
  pub has_middleware : Bool
  pub has_store : Bool

unfoldable pub validate_dependencies : ManagerDependencies → Option MissingDependency
validate_dependencies d = elim d.config_mgr [
  | none ↦ some MissingDependency.config_manager
  | some c ↦
      if not d.has_logger
      then some MissingDependency.logger
      else if not d.has_middleware
      then some MissingDependency.middleware
      else if not d.has_store
      then some MissingDependency.health_store
      else none
]

abbrev no_listener : Listener
no_listener = record {
  route = record { name = []; listen = pos 0; upstream = []; server = [] };
  state = ListenerState.initial;
  start_err = false;
  started = false;
  closer = none;
}

pub data NewRouteManager : Type 0 where
  made : RouteManager → NewRouteManager
  missing : MissingDependency → NewRouteManager

unfoldable pub new_route_manager : ManagerDependencies → NewRouteManager
unfolding validate_dependencies
new_route_manager d = elim (validate_dependencies d) [
  | some m ↦ NewRouteManager.missing m
  | none ↦ NewRouteManager.made (record {
    config = d.config_mgr;
    wake_options = none;
    idle_tracker = false;
    metrics = false;
    running = false;
    listeners = λ i. no_listener;
    next = 0;
    routes = [];
    route_map = [];
  })
]

-- listenerState.String
unfoldable pub state_string : ListenerState → Str
state_string ListenerState.initial = str "initial"
state_string ListenerState.starting = str "starting"
state_string ListenerState.running = str "running"
state_string ListenerState.stopping = str "stopping"
state_string ListenerState.stopped = str "stopped"
state_string ListenerState.failed = str "failed"
