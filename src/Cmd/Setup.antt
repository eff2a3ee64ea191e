-- ===== src/Cmd/Setup.antt =====
-- cmd/smaug/main.go: how the managers are made, given their options, and started. What
-- prometheus, the file and its watcher, and the ports come to is an argument.
pub mod Serving
use smaug.Prelude.{ℤ, Str, Bool, true, not, Option, none, some, if◌then◌else◌}
use smaug.Prelude.Map.{Map}
use smaug.Config.Types.{Config, Server}
use smaug.Config.Loader.{Loaded}
use smaug.Config.Manager as Configs
use smaug.Config.Manager.{ConfigManager, NewManager, new_manager}
use smaug.Health.Manager.{Started, new_health_manager, set_registry, start_workers}
use smaug.Infrastructure.Metrics.{Prometheus, new_registry}
use smaug.Management.Handlers.{VersionInfo}
use smaug.Management.Metrics as Metrics
use smaug.Management.Metrics.{MetricsServer, new_metrics_server}
use smaug.Management.Server as Life
use smaug.Management.Server.{ServerError, new_server, start_begins}
use smaug.Middleware.Response.{Handler}
use smaug.Proxy.Handler.{Recorder, is_nil}
use smaug.Proxy.RouteManager.Listeners.{
  RouteManager, RouteError, ManagerDependencies, MissingDependency, NewRouteManager,
  new_route_manager,
}
use smaug.Proxy.RouteManager.{set_wake_options, set_idle_tracker, set_metrics, start}
use smaug.Cmd.Wake.{WakeOptions, set_options}

-- initMetrics: `none` is an error.
unfoldable pub init_metrics : {S : Type 0} → Prometheus S → S → Option S
init_metrics p s = new_registry p s

-- initConfigManager; `reg` tells whether the registry is not nil.
unfoldable pub init_config_manager : Str → Bool → Loaded → Bool → Bool → NewManager
init_config_manager path reg file watcher_ok add_ok =
    elim (new_manager path file watcher_ok add_ok) [
      | NewManager.made m ↦ NewManager.made (if reg then Configs.set_metrics true m else m)
      | NewManager.load_failed e ↦ NewManager.load_failed e
      | NewManager.watcher_failed ↦ NewManager.watcher_failed
      | NewManager.add_failed ↦ NewManager.add_failed
    ]

-- initHealthManager
unfoldable pub init_health_manager : (Map Server → Map Server) → Bool → Config → Started
init_health_manager range reg cfg = start_workers range (set_registry (new_health_manager cfg) reg)

pub data RoutesUp : Type 0 where
  up : RouteManager → RoutesUp
  missing : MissingDependency → RoutesUp
  failed : RouteError → RoutesUp

-- The setters of initRouteManager, on the new manager.
unfoldable pub set_up_routes : WakeOptions → Recorder → Bool → RouteManager → RouteManager
set_up_routes wake rec reg m =
    let woken : RouteManager = elim (set_options wake) [
      | none ↦ m
      | some sender ↦ set_wake_options m sender
    ] in
    set_metrics (if not (is_nil rec) then set_idle_tracker woken else woken) reg

-- initRouteManager
unfoldable pub init_route_manager : ManagerDependencies → WakeOptions → Recorder → Bool → RoutesUp
unfolding set_up_routes
init_route_manager d wake rec reg = elim (new_route_manager d) [
  | NewRouteManager.missing e ↦ RoutesUp.missing e
  | NewRouteManager.made m ↦
      let (started, err) = start (set_up_routes wake rec reg m) in
      elim err [ none ↦ RoutesUp.up started | some e ↦ RoutesUp.failed e ]
]

-- What NewServer is given for the probes, and the life of the server. The routes that it asks are
-- those of the route manager at the time of a request.
pub record ManagementServer : Type 0 where
  pub port : ℤ
  pub version_info : VersionInfo
  pub life : Life.Server

-- startManagementServer and startMetricsServer, up to their wait for the server to come up.
unfoldable pub start_management_server :
    Config → VersionInfo → ManagementServer × Option ServerError
start_management_server cfg info =
    let (life, err) = start_begins new_server in
    (
      record {
        port = cfg.settings.observability.health_check.port;
        version_info = info;
        life = life;
      },
      err,
    )

unfoldable pub start_metrics_server : Config → Handler → MetricsServer × Option ServerError
start_metrics_server cfg registry =
    Metrics.start_begins (new_metrics_server cfg.settings.observability.metrics.port registry)
