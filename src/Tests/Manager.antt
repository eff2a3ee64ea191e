-- ===== src/Tests/Manager.antt =====
-- The configuration manager, on its own and with the routes.
use smaug.Prelude.{
  Str, str, str_eq, true, false, List, [], ◌∷◌, ◌++◌, Option, none, some, ◌≡◌, refl, Time, All,
  arith, leb, ◌+◌, if◌then◌else◌,
}
use smaug.Config.Types.{Config}
use smaug.Config.Loader.{Libraries, Loaded, load}
use smaug.Config.Substitute.{substitute_env}
use smaug.Config.Substitute.Templates.{Piece, written, expanded, substitute_env-written}
use smaug.Config.Validation.{
  validate, validate_settings, validate_gwaihir, validate_logging, validate_observability,
  validate_optional_timeout, validate_servers, validate_routes, report, has_errors, add,
  valid_log_levels, valid_log_formats,
}
use smaug.Config.Validation.Rules.{IsConfig}
use smaug.Config.Manager.{
  ConfigManager, NewManager, Reload, Watched, Event, new_manager, get_config, watch, fire, advance,
  is_relevant, debounce_duration, close_done,
}
use smaug.Config.Manager.Machine.{Step, Reach}
use smaug.Config.Manager.Served.{IsIdle, get_config-IsConfig}
use smaug.Config.Manager.Debounce.{IsBurst, watch_all, last_change, burst_reloads_once}
use smaug.Tests.Data.{settings}

abbrev set_variables : Str → Option Str
set_variables n = if str_eq n (str "HOST") then some (str "nas") else none

-- `url: http://${HOST}:${PORT:-80}`
abbrev template : List Piece
template =
    Piece.text (str "url: http://")
    ∷ Piece.variable (str "HOST")
    ∷ Piece.text (str ":")
    ∷ Piece.with_default (str "PORT") (str "80")
    ∷ []

substitute_env-written_example :
    substitute_env set_variables (written template) ≡ expanded set_variables template
substitute_env-written_example = substitute_env-written set_variables template (ground arith)

expands : expanded set_variables template ≡ str "url: http://nas:80"
unfolding expanded str_eq
expands = refl

abbrev pub bare : Config
bare = record { settings = settings; servers = []; routes = [] }

abbrev pub lib : Libraries
lib = record {
  lookup_env = set_variables;
  unmarshal = λ s. some bare;
  parse_url = λ s. none;
  decode_base64 = λ s. none;
}

abbrev pub file : Option Str
file = some (str "routes: []")

pub loads : load lib file ≡ Loaded.loaded bare
unfolding load validate validate_settings validate_gwaihir validate_logging validate_observability
    validate_optional_timeout validate_servers validate_routes report has_errors add
    valid_log_levels valid_log_formats str_eq
loads = refl

abbrev pub base_name : Str → Str
base_name s = s

abbrev pub manager : ConfigManager
manager = record {
  config = bare;
  path = str "smaug.yaml";
  reload_ch = false;
  done = false;
  timer = none;
  watching = true;
  watcher_open = true;
  metrics = false;
  recorded = [];
  reloads = [];
}

manager-made : new_manager (str "smaug.yaml") (load lib file) true true ≡ NewManager.made manager
manager-made = rw loads (unfold new_manager in refl)

-- The file cannot be read when its write is seen.
abbrev pub write_seen : Watched
write_seen =
    Watched.event (some (record { name = str "smaug.yaml"; is_write = true; is_create = false }))

abbrev rewritten : ConfigManager
rewritten =
    advance 0 (load lib none)
      (advance 0 (load lib none) (fire 2_000_000_000 (watch base_name 5 write_seen manager)))

rewritten-Reach : Reach lib base_name manager rewritten
rewritten-Reach =
    Reach.next
      (Reach.next
        (Reach.next (Reach.next Reach.here (Step.watched 5 write_seen refl))
          (Step.fired 2_000_000_000))
        (Step.advanced 0 none))
      (Step.advanced 0 none)

get_config-IsConfig_example : IsConfig lib.parse_url lib.decode_base64 (get_config rewritten)
get_config-IsConfig_example =
    get_config-IsConfig lib base_name (str "smaug.yaml") file true true manager rewritten
      manager-made rewritten-Reach

-- Stop closes `done` while the timer is armed, which then starts a callback all the same.
abbrev stopping : ConfigManager
stopping = close_done (watch base_name 5 write_seen manager)

abbrev stopped : ConfigManager
stopped = advance 0 (load lib file) (fire 2_000_000_000 stopping)

stopping-closed : stopping.done ≡ true
unfolding close_done
stopping-closed = refl

stopping-IsIdle : All IsIdle stopping.reloads
unfolding close_done watch is_relevant str_eq
stopping-IsIdle = tt

abbrev write_event : Event
write_event = record { name = str "smaug.yaml"; is_write = true; is_create = false }

relevant : is_relevant base_name manager.path write_event ≡ true
unfolding is_relevant str_eq
relevant = refl

abbrev burst : List (Time × Event)
burst = (600_000_000, write_event) ∷ (1_500_000_000, write_event) ∷ []

burst-IsBurst : IsBurst base_name manager.path 5 burst
unfolding is_relevant str_eq
burst-IsBurst = ground arith

burst_reloads_once_example :
    (fire 3_000_000_000 (
      watch_all base_name burst
        (watch base_name 5 (Watched.event (some write_event)) manager))).reloads
    ≡ (if leb (last_change base_name manager.path 5 burst + debounce_duration) 3_000_000_000
        then [] ++ Reload.called ∷ []
        else [])
burst_reloads_once_example =
    burst_reloads_once base_name manager 5 write_event burst 3_000_000_000 relevant burst-IsBurst
