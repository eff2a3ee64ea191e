-- ===== src/Tests/Serving.antt =====
-- What a route's client is answered, how the routes come up, and what the Wake-on-LAN client counts.
use smaug.Prelude.{
  ℕ, subst, pos, Str, str, true, false, List, [], ◌∷◌, Option, none, some, ◌≡◌, ◌≢◌, ◌⊎◌, ◌↔◌, ◌≤◌,
  refl, In, arith,
}
use smaug.Prelude.Map.{lookup}
use smaug.Config.Types.{Config, Server}
use smaug.Client.Gwaihir.{
  WolError, ConfigError, new_retry_config, new_client, validate, validate_retry_config,
}
use smaug.Client.Gwaihir.{Round, send_with_retry}
use smaug.Client.Gwaihir.Calls.{
  Client, Post, Reply, SleepEnd, send_wol_recorded, attempt_wire, rounds, send_wol_recorded-counts,
}
use smaug.Client.Gwaihir.Outcome.{IsSuccess}
use smaug.Client.Gwaihir.Retry.{status_of}
use smaug.Infrastructure.Metrics.{Prometheus, record_api_call}
use smaug.Proxy.Handler.{Target, Recorder, new_proxy_handler, serve_route}
use smaug.Proxy.WakeCoordinator.{WakeCoordinator, WakeError}
use smaug.Proxy.Answers.{Arrival, listener_handler}
use smaug.Proxy.Answers.Statuses.{proxied_status, woken_status, listener_handler-status}
use smaug.Proxy.Reload.Index.{index}
use smaug.Proxy.RouteManager.Listeners.{RouteManager, ManagerDependencies}
use smaug.Proxy.RouteManager.{start, wake_coordinator_for}
use smaug.Proxy.RouteManager.Changes.{handle_reload, routes_of}
use smaug.Proxy.RouteManager.Synced.{start-IsSynced}
use smaug.Proxy.RouteManager.Unchanged.{same_routes_skip}
use smaug.Proxy.Watcher.Serving.{Serves}
use smaug.Middleware.Response.{Script, Request, serve, final_status}
use smaug.Middleware.Answers.{route_middleware, with_id, identified}
use smaug.Middleware.Logging.{IsPlain}
use smaug.Cmd.Wake.{init_wake_options, gwaihir_client_config, WakeOptions, IsWakeable}
use smaug.Cmd.Setup.{RoutesUp, init_route_manager}
use smaug.Cmd.Setup.Serving.{init_route_manager-Serves}
use smaug.Tests.Data.{web, nas, settings, before, idle_manager, calm}
use smaug.Tests.Http.{unchanged, no_port, get_ready, fresh}
use smaug.Tests.Idle.{tracker}
use smaug.Tests.Routes.{in_order, in_order-IsRange}

-- A server that is woken, through a configured service.
abbrev waking_nas : Server
waking_nas = record nas {
  wake_on_lan = record { enabled = true; machine_id = str "m1"; timeout = pos 0; debounce = pos 0 };
}

abbrev waking : Config
waking = record {
  settings = record settings {
    gwaihir = record {
      url = str "http://gwaihir";
      api_key = record { value = str "k" };
      timeout = pos 0;
    };
  };
  servers = (str "nas", waking_nas) ∷ [];
  routes = web ∷ [];
}

accepted : (e : ConfigError) → init_wake_options (λ s. true) waking ≢ WakeOptions.refused e
unfolding init_wake_options gwaihir_client_config new_client validate validate_retry_config
accepted e h = ground arith

abbrev given : ManagerDependencies
given = record {
  config_mgr = some waking;
  has_logger = true;
  has_middleware = true;
  has_store = true;
}

init_route_manager-Serves_example :
    (m : RouteManager) × (init_route_manager given
        (init_wake_options (λ s. true) waking)
        Recorder.recording
        true
      ≡ RoutesUp.up m)
    × (m.running ≡ true)
    × (routes_of m ≡ waking.routes)
    × Serves m waking
    × ((i : ℕ)
        → In i m.routes
        → ((c : WakeCoordinator) × ((m.listeners i).closer ≡ some c))
          ↔ ((waking.settings.gwaihir.url ≢ []) × IsWakeable waking (m.listeners i).route))
init_route_manager-Serves_example =
    init_route_manager-Serves (λ s. true) given waking Recorder.recording true refl refl refl refl
      accepted

-- The started manager, and a configuration that only changes a server.
abbrev started_manager : RouteManager
started_manager = (start idle_manager).0

abbrev now_waking : Config
now_waking = record before { servers = (str "nas", waking_nas) ∷ [] }

same_routes :
    (k : Str) → lookup k (index (routes_of started_manager)) ≡ lookup k (index now_waking.routes)
same_routes k = rw (start-IsSynced idle_manager before refl refl refl).2 refl

same_routes_skip_example :
    handle_reload in_order calm (record started_manager { config = some now_waking })
    ≡ (record started_manager { config = some now_waking }, [])
same_routes_skip_example =
    same_routes_skip in_order in_order-IsRange calm started_manager now_waking same_routes

-- A service that answers every request with 202, and a registry that lists its calls.
abbrev accepts : ℕ → Post → Reply
accepts n post = Reply.complete 202 []

abbrev called : Prometheus (List Str)
called = record {
  register = λ n s. some s;
  inc = λ n labels s. some (n ∷ s);
  observe = λ n labels s. some (n ∷ s);
  set = λ n labels v s. some s;
}

abbrev client : Client
client = record {
  base_url = str "http://gwaihir";
  api_key = str "k";
  retry_config = new_retry_config;
  metrics = true;
}

abbrev sent : Option WolError × List Str
sent =
    send_wol_recorded (λ id. some id) (λ base. none) (λ url body. true) accepts called
      (λ body. none) client (str "m1") (λ n. SleepEnd.timer_fired) []

abbrev sent_rounds : ℕ → Round
sent_rounds =
    rounds (λ id. some id) (λ base. none) (λ url body. true) accepts client (str "m1")
      (λ n. SleepEnd.timer_fired)

send_wol_recorded-counts_example :
    ((sent.0 ≡ none)
      × (sent.1 ≡ record_api_call called true (str "send_wol") true [])
      × (m : ℕ) × (1 ≤ m)
      × ((send_with_retry (λ body. none) client.retry_config sent_rounds).requests ≡ m)
      × IsSuccess (
          status_of (
            attempt_wire
              (λ id. some id)
              (λ base. none)
              (λ url body. true)
              accepts
              client
              (str "m1")
              m)))
    ⊎ ((e : WolError) × (sent.0 ≡ some e)
        × (sent.1 ≡ record_api_call called true (str "send_wol") false []))
send_wol_recorded-counts_example =
    send_wol_recorded-counts (λ id. some id) (λ base. none) (λ url body. true) accepts called
      (λ body. none) client (str "m1") (λ n. SleepEnd.timer_fired) [] refl refl

abbrev parses : Str → Option Target
parses url = some (record { scheme = str "http"; host = str "nas" })

abbrev backend : Request → Option Script
backend q = some Script.returns

backend-IsPlain : (out : Request) (s : Script) → backend out ≡ some s → IsPlain false s
backend-IsPlain out s e =
    let same : Script.returns ≡ s = ground arith in subst (IsPlain false) same tt

-- The server is not healthy, and its wake times out.
abbrev arrival : Arrival
arrival = record {
  tls = false;
  host = str "nas.example";
  now = 7;
  healthy = false;
  wake = some WakeError.wake_timeout_elapsed;
}

abbrev coordinator : Option WakeCoordinator
coordinator = wake_coordinator_for true web waking_nas

abbrev handled : Script
handled =
    listener_handler parses (λ t q. q) backend (route_middleware unchanged no_port (str "id"))
      coordinator Recorder.recording web tracker arrival get_ready

listener_handler-status_example :
    ((serve handled fresh).2 ≡ true)
    × (final_status (serve handled fresh).0
        ≡ woken_status parses
            (λ t q. q)
            backend
            unchanged
            no_port
            (str "id")
            coordinator
            arrival
            (proxied_status parses
              (λ t q. q)
              backend
              unchanged
              no_port
              (str "id")
              (serve_route Recorder.recording
                (new_proxy_handler parses web.upstream)
                web.name
                7
                tracker)
              arrival
              (with_id (str "id") get_ready)
              (identified (str "id") fresh)))
listener_handler-status_example =
    listener_handler-status parses (λ t q. q) backend unchanged no_port (str "id") coordinator
      Recorder.recording web tracker backend-IsPlain arrival get_ready fresh (refl, refl, refl)
