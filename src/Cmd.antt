-- ===== src/Cmd.antt =====
-- cmd/smaug/main.go: what is set up from the configuration for idle routes, and how a sleep trigger
-- is served.
pub mod Targets
pub mod Recording
pub mod Requests
pub mod Wake
pub mod Run
pub mod Setup
pub mod Shared
use smaug.Prelude.{
  ℕ, ℤ, pos, suc, Str, str, is_empty, Bool, true, false, not, ◌&&◌, ◌==◌, List, [], ◌∷◌, ◌++◌, map,
  Option, none, some, if◌then◌else◌, count_if,
}
use smaug.Prelude.Map.{Map, lookup, insert}
use smaug.Config.Types.{Config, Route, Server}
use smaug.Proxy.IdleTracker.{IdleTracker, register_route, new_idle_tracker}
use smaug.Proxy.IdleTracker as Tracker
use smaug.Proxy.Handler.{Recorder, as_recorder, is_nil}
use smaug.Client.Sleep.{
  SleepError, SleepConfig, NetLib, SleepRequest, SleepReply, new_client_config, validate_config,
  send_sleep,
}
use smaug.Health.Store.{InMemoryHealthStore, get}

abbrev pub default_idle_check_interval : ℤ
default_idle_check_interval = pos 60_000_000_000

-- server, ok := cfg.Servers[route.Server]; ok && server.SleepOnLan.Enabled
unfoldable pub sleeping_server : Config → Route → Option Server
sleeping_server cfg route = elim (lookup route.server cfg.servers) [
  | none ↦ none
  | some server ↦ if server.sleep_on_lan.enabled then some server else none
]

abbrev pub has_sleep : Config → Route → Bool
has_sleep cfg route = elim (sleeping_server cfg route) [ none ↦ false | some server ↦ true ]

-- The second loop of initIdleTracker.
unfoldable pub register_routes : Config → List Route → IdleTracker → IdleTracker
register_routes cfg [] t = t
register_routes cfg (route ∷ rs) t = elim (sleeping_server cfg route) [
  | none ↦ register_routes cfg rs t
  | some server ↦
      register_routes cfg rs (register_route t route.name server.sleep_on_lan.idle_timeout)
]

-- initIdleTracker, with a logger, for a non-nil registry: `none` is a nil tracker.
unfoldable pub init_idle_tracker : Config → Option IdleTracker
init_idle_tracker cfg =
    if count_if (has_sleep cfg) cfg.routes == 0
    then none
    else elim (new_idle_tracker default_idle_check_interval true) [
      | Tracker.Made.refused e ↦ none
      | Tracker.Made.made t ↦ some (register_routes cfg cfg.routes (Tracker.set_metrics t true))
    ]

-- What run passes to initRouteManager, and what initRouteManager attaches of it.
unfoldable pub init_recorder : Config → Recorder
init_recorder cfg =
    let recorder = as_recorder (init_idle_tracker cfg) in
    if is_nil recorder then Recorder.no_recorder else recorder

pub record RouteSleepSender : Type 0 where
  pub senders : Map SleepConfig
  pub server_ids : Map Str

abbrev pub no_senders : RouteSleepSender
no_senders = record { senders = []; server_ids = [] }

abbrev pub client_config : Server → SleepConfig
client_config server = record (new_client_config server.sleep_on_lan.endpoint) {
  auth_token = server.sleep_on_lan.auth_token.value;
}

pub data Senders : Type 0 where
  ready : RouteSleepSender → Senders
  failed : SleepError → Senders

-- The loop of initSleepCoordinator.
unfoldable pub add_senders : NetLib → Config → List Route → RouteSleepSender → Senders
add_senders net cfg [] s = Senders.ready s
add_senders net cfg (route ∷ rs) s = elim (sleeping_server cfg route) [
  | none ↦ add_senders net cfg rs s
  | some server ↦
      if is_empty server.sleep_on_lan.endpoint
      then add_senders net cfg rs s
      else elim (validate_config net (client_config server) true) [
        | some e ↦ Senders.failed e
        | none ↦ add_senders net cfg rs (record {
          senders = insert route.name (client_config server) s.senders;
          server_ids = insert route.name route.server s.server_ids;
        })
      ]
]

-- What a trigger comes to: nothing is sent, or the client's answer.
pub data Slept : Type 0 where
  already_offline no_client : Slept
  sent : Option SleepError → Slept

-- routeSleepSender.Sleep; `health` is none for a nil store.
unfoldable pub sleep_route :
    (SleepRequest → SleepReply) → RouteSleepSender → Option InMemoryHealthStore → Str → Slept
sleep_route exchange r health route_id =
    let send : Slept = elim (lookup route_id r.senders) [
      | none ↦ Slept.no_client
      | some client ↦ Slept.sent (send_sleep exchange client)
    ] in
    elim (lookup route_id r.server_ids) [
      | none ↦ send
      | some server_id ↦ elim health [
        | none ↦ send
        | some store ↦ elim (get store server_id) [
          | none ↦ send
          | some status ↦ if not status.healthy then Slept.already_offline else send
        ]
      ]
    ]
