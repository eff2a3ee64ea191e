-- ===== src/Tests/Sleeping.antt =====
-- Sleep commands: the set-up of a configuration, a trigger, and the loop of triggers.
use mathlib.Core.Option.{some-injective}
use smaug.Prelude.{
  pos, str, str_eq, true, false, [], ◌∷◌, none, some, ◌≡◌, ◌⊎◌, refl, inl, inr, In, count_if, sym,
  ◌∙◌,
}
use smaug.Prelude.Map.{lookup, insert}
use smaug.Config.Types.{Route}
use smaug.Proxy.IdleTracker as Tracker
use smaug.Proxy.IdleTracker.{IdleTracker, RouteEntry}
use smaug.Client.Sleep.{
  SleepConfig, NetLib, SleepRequest, SleepReply, validate_config, send_sleep, new_client_config,
  validate_endpoint, is_loopback_or_localhost,
}
use smaug.Health.Store.{ServerHealthStatus, get}
use smaug.Cmd.{
  RouteSleepSender, Senders, Slept, init_idle_tracker, add_senders, no_senders, sleeping_server,
  register_routes, sleep_route, init_recorder,
}
use smaug.Cmd.Targets.{InStep, HasEndpoints, setup_agrees, sleep_route_iff}
use smaug.Cmd.Requests.{no_sleep-answers_500}
use smaug.Middleware.Response.{Script, serve, final_status, status_internal_server_error}
use smaug.Middleware.Answers.{route_middleware}
use smaug.Proxy.Answers.{Arrival, listener_handler}
use smaug.Proxy.WakeCoordinator.{WakeError}
use smaug.Tests.Data.{web, nas, before, quiet}

-- Every URL is http://nas, and no host is an address.
abbrev pub net : NetLib
net = record {
  parse = λ s. some (record { scheme = str "http"; hostname = str "nas" });
  parse_ip = λ s. none;
  to_lower = λ s. s;
  equal_fold = str_eq;
}

abbrev nas_client : SleepConfig
nas_client = record {
  endpoint = str "http://nas/sleep";
  timeout = pos 10_000_000_000;
  auth_token = str "";
}

abbrev tracker : IdleTracker
tracker = record {
  check_interval = pos 60_000_000_000;
  metrics = true;
  routes = (str "web", record { idle_timeout = pos 100; last_seen = 0 }) ∷ [];
  sleep_ch = [];
  running = false;
  checker = false;
  lingering = 0;
  recorded = [];
}

abbrev sender : RouteSleepSender
sender = record { senders = (str "web", nas_client) ∷ []; server_ids = (str "web", str "nas") ∷ [] }

tracker-made : init_idle_tracker before ≡ some tracker
unfolding init_idle_tracker count_if sleeping_server lookup str_eq Tracker.new_idle_tracker
    register_routes Tracker.register_route Tracker.set_metrics insert
tracker-made = refl

sender-made : add_senders net before before.routes no_senders ≡ Senders.ready sender
unfolding add_senders sleeping_server lookup str_eq validate_config new_client_config
    validate_endpoint is_loopback_or_localhost insert
sender-made = refl

web-sleeps : sleeping_server before web ≡ some nas
unfolding sleeping_server lookup str_eq
web-sleeps = refl

has_endpoints : HasEndpoints before
has_endpoints route server (inr i) sleeps = absurd i
has_endpoints route server (inl e) sleeps =
    let same : nas ≡ server = some-injective nas server (sym web-sleeps ∙ rw e at sleeps) in
    rw (← same) refl

setup_agrees_example : InStep before tracker sender
setup_agrees_example = setup_agrees net before has_endpoints tracker sender tracker-made sender-made

abbrev accepts : SleepRequest → SleepReply
accepts r = SleepReply.answered 202

web-client : lookup (str "web") sender.senders ≡ some nas_client
unfolding lookup str_eq
web-client = refl

web-server : lookup (str "web") sender.server_ids ≡ some (str "nas")
unfolding lookup str_eq
web-server = refl

sleep_route_iff_example :
    ((sleep_route accepts sender (some []) (str "web") ≡ Slept.sent (send_sleep accepts nas_client))
      × ((st : ServerHealthStatus) → get [] (str "nas") ≡ some st → st.healthy ≡ true))
    ⊎ ((sleep_route accepts sender (some []) (str "web") ≡ Slept.already_offline)
        × ((st : ServerHealthStatus) × (get [] (str "nas") ≡ some st) × (st.healthy ≡ false)))
sleep_route_iff_example =
    sleep_route_iff accepts sender [] (str "web") (str "nas") nas_client web-client web-server

none_sleeps : (route : Route) → In route quiet.routes → sleeping_server quiet route ≡ none
unfolding sleeping_server lookup
none_sleeps route i = refl

-- The server is not healthy, and its wake times out.
abbrev arrival : Arrival
arrival = record {
  tls = false;
  host = str "nas.example";
  now = 7;
  healthy = false;
  wake = some WakeError.wake_timeout_elapsed;
}

no_sleep-answers_500_example :
    final_status
      (serve
        (listener_handler
          (λ url. none)
          (λ target q. q)
          (λ q. some Script.returns)
          (route_middleware (λ s. s) (λ s. none) (str "id"))
          none
          (init_recorder quiet)
          web
          tracker
          arrival
          (record {
            method = str "GET";
            path = str "/";
            header = [];
            remote_addr = [];
            request_id = none;
          }))
        (record {
          headers = [];
          status = none;
          informational = [];
          body = [];
          head = false;
          room = 100;
          written = 0;
        })).0
    ≡ status_internal_server_error
no_sleep-answers_500_example =
    no_sleep-answers_500 (λ s. s) (λ s. none) (str "id") (λ url. none) (λ target q. q)
      (λ q. some Script.returns) quiet none_sleeps none web tracker arrival _ _ (refl, refl, refl)
