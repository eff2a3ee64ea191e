-- ===== src/Tests/Data.antt =====
-- Configurations and routes for the examples.
use smaug.Prelude.{pos, Str, str, true, false, [], ◌∷◌, none, some}
use smaug.Prelude.Map.{Map}
use smaug.Config.Types.{Config, Route, Server, SettingsConfig, SecretString}
use smaug.Proxy.RouteManager.Listeners.{ListenerState, Listener, RouteManager, Hang, Startup, World}

abbrev pub web : Route
web = record { name = str "web"; listen = pos 80; upstream = str "http://nas"; server = str "nas" }

abbrev pub api : Route
api = record { name = str "api"; listen = pos 81; upstream = str "http://nas"; server = str "" }

-- The route `web` with another upstream.
abbrev pub moved : Route
moved = record web { upstream = str "http://new" }

abbrev secret : Str → SecretString
secret s = record { value = s }

abbrev pub settings : SettingsConfig
settings = record {
  gwaihir = record { url = str ""; api_key = secret (str ""); timeout = pos 0 };
  logging = record { level = str "info"; format = str "json" };
  observability = record {
    health_check = record { enabled = false; port = pos 0 };
    metrics = record { enabled = false; port = pos 0 };
  };
}

-- A server that is checked and put to sleep.
abbrev pub nas : Server
nas = record {
  wake_on_lan = record { enabled = false; machine_id = str ""; timeout = pos 0; debounce = pos 0 };
  sleep_on_lan = record {
    enabled = true;
    endpoint = str "http://nas/sleep";
    auth_token = secret (str "");
    idle_timeout = pos 100;
  };
  health_check = record {
    endpoint = str "http://nas/up";
    interval = pos 10;
    timeout = pos 2;
    auth_token = secret (str "");
  };
}

abbrev pub servers : Map Server
servers = (str "nas", nas) ∷ []

abbrev pub before : Config
before = record { settings = settings; servers = servers; routes = web ∷ [] }

abbrev pub after : Config
after = record { settings = settings; servers = servers; routes = moved ∷ api ∷ [] }

abbrev pub quiet : Config
quiet = record { settings = settings; servers = []; routes = api ∷ [] }

abbrev blank : Listener
blank = record {
  route = api;
  state = ListenerState.initial;
  start_err = false;
  started = false;
  closer = none;
}

abbrev pub idle_manager : RouteManager
idle_manager = record {
  config = some before;
  wake_options = none;
  idle_tracker = false;
  metrics = false;
  running = false;
  listeners = λ i. blank;
  next = 0;
  routes = [];
  route_map = [];
}

abbrev pub calm : World
calm = record { shuts_down = λ i. true; starts_up = λ i. Startup.comes_up }

-- A world in which no listener comes up in time.
abbrev pub stuck : World
stuck = record { shuts_down = λ i. true; starts_up = λ i. Startup.hangs Hang.binding }
