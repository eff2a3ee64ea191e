-- ===== src/Config/Validation.antt =====
-- internal/config/validation.go. An error is the field that it names and what is wrong with it;
-- `nil` is `none`. `url.Parse` and base64 decoding are parameters of the model.
pub mod Fields
pub mod Rules
pub mod Checks
pub mod Complete
use smaug.Prelude.{
  ℕ, ◌==◌, ℤ, pos, is_zero, ltb_ℤ, leb_ℤ, Str, str, str_eq, is_empty, Bool, true, false, not, ◌&&◌,
  ◌||◌, List, [], ◌∷◌, ◌++◌, Option, none, some, if◌then◌else◌, ◌+◌,
}
use smaug.Prelude.Map.{Map, lookup}
use smaug.Config.Types.{
  Config, SettingsConfig, GwaihirConfig, LoggingConfig, ObservabilityConfig, Server,
  WakeOnLanConfig, SleepOnLanConfig, ServerHealthCheck, Route,
}
use Fields.{Field, Problem, FieldError, Url}

-- ValidationErrors.Add: `nil` adds nothing.
unfoldable pub add : List FieldError → Option FieldError → List FieldError
add errs none = errs
add errs (some e) = errs ++ e ∷ []

unfoldable pub has_errors : List FieldError → Bool
has_errors [] = false
has_errors (e ∷ es) = true

abbrev fail : Field → Problem → Option FieldError
fail f p = some (f, p)

unfoldable pub valid_log_levels : Str → Bool
valid_log_levels s =
    str_eq s (str "debug")
    || str_eq s (str "info")
    || str_eq s (str "warn")
    || str_eq s (str "error")

unfoldable pub valid_log_formats : Str → Bool
valid_log_formats s = str_eq s (str "json") || str_eq s (str "text")

unfoldable pub validate_port : ℤ → Field → Option FieldError
validate_port port f =
    if ltb_ℤ port (pos 1) || ltb_ℤ (pos 65535) port then fail f Problem.port_range else none

unfoldable pub validate_timeout : ℤ → Field → Option FieldError
validate_timeout timeout f = if leb_ℤ timeout (pos 0) then fail f Problem.timeout_positive else none

-- A duration that is set (not zero) must be positive.
unfoldable pub validate_optional_timeout : List FieldError → ℤ → Field → List FieldError
unfolding add validate_timeout
validate_optional_timeout errs t f = if is_zero t then errs else add errs (validate_timeout t f)

unfoldable pub is_web_scheme : Str → Bool
is_web_scheme s = str_eq s (str "http") || str_eq s (str "https")

unfoldable pub check_url : Option Url → Field → Option FieldError
check_url none f = fail f Problem.url_unparsable
check_url (some u) f =
    if not (is_web_scheme u.scheme)
    then fail f Problem.url_scheme
    else if is_empty u.host
    then fail f Problem.url_host
    else none

-- strings.SplitN(s, ":", 2): the part before the first colon, if there is one.
abbrev prepend : ℕ → Option Str → Option Str
prepend c none = none
prepend c (some s) = some (c ∷ s)

unfoldable pub before_colon : Str → Option Str
before_colon [] = none
before_colon (c ∷ s) = let rest = before_colon s in if c == b':' then some [] else prepend c rest

unfoldable pub check_user : Option Str → Field → Option FieldError
check_user none f = fail f Problem.auth_format
check_user (some user) f = if is_empty user then fail f Problem.auth_format else none

unfoldable pub validate_logging : LoggingConfig → List FieldError → List FieldError
unfolding add
validate_logging l errs =
    let errs' =
      (if is_empty l.level || valid_log_levels l.level
        then errs
        else add errs (fail Field.logging_level Problem.bad_choice)) in
    if is_empty l.format || valid_log_formats l.format
    then errs'
    else add errs' (fail Field.logging_format Problem.bad_choice)

unfoldable pub validate_observability : ObservabilityConfig → List FieldError → List FieldError
unfolding add
validate_observability o errs =
    let errs' =
      (if o.health_check.enabled
        then add errs (validate_port o.health_check.port Field.health_check_port)
        else errs) in
    if o.metrics.enabled then add errs' (validate_port o.metrics.port Field.metrics_port) else errs'

unfoldable pub validate_wake_on_lan : Str → WakeOnLanConfig → List FieldError → List FieldError
validate_wake_on_lan name w errs =
    if not w.enabled
    then errs
    else validate_optional_timeout
        (validate_optional_timeout errs w.timeout (Field.wake_timeout name)) w.debounce
        (Field.wake_debounce name)

-- A route may name no server; one that it names must be configured.
unfoldable pub check_reference : Map Server → ℕ → Str → Option FieldError
check_reference servers i server = if is_empty server then none else elim (lookup server servers) [
  | none ↦ fail (Field.route_server i) Problem.server_missing
  | some s ↦ none
]

unfoldable pub report : List FieldError → Option (List FieldError)
unfolding has_errors
report errs = if has_errors errs then some errs else none

module _ (parse_url : Str → Option Url) where
  unfoldable pub validate_url : Str → Field → Option FieldError
  unfolding check_url
  validate_url raw f =
      if is_empty raw then fail f Problem.url_empty else check_url (parse_url raw) f

  unfoldable pub validate_gwaihir : GwaihirConfig → List FieldError → List FieldError
  unfolding add
  validate_gwaihir g errs =
      let errs' =
        (if is_empty g.url then errs else add errs (validate_url g.url Field.gwaihir_url)) in
      validate_optional_timeout errs' g.timeout Field.gwaihir_timeout

  unfoldable pub validate_settings : SettingsConfig → List FieldError → List FieldError
  validate_settings s errs =
      validate_observability s.observability
        (validate_logging s.logging (validate_gwaihir s.gwaihir errs))

  unfoldable pub validate_sleep_on_lan : Str → SleepOnLanConfig → List FieldError → List FieldError
  unfolding add
  validate_sleep_on_lan name s errs =
      if not s.enabled
      then errs
      else validate_optional_timeout
          (add errs (validate_url s.endpoint (Field.sleep_endpoint name))) s.idle_timeout
          (Field.sleep_idle_timeout name)

  unfoldable pub validate_route : Map Server → ℕ → Route → List FieldError → List FieldError
  unfolding add check_reference
  validate_route servers i r errs =
      let e1 =
        (if is_empty r.name
          then add errs (fail (Field.route_name i) Problem.name_empty)
          else errs) in
      let e2 = add e1 (validate_port r.listen (Field.route_listen i)) in
      let e3 = add e2 (validate_url r.upstream (Field.route_upstream i)) in
      add e3 (check_reference servers i r.server)

  -- The loop of validateRoutes, from index `i` on.
  unfoldable pub validate_routes : Map Server → ℕ → List Route → List FieldError → List FieldError
  validate_routes servers i [] errs = errs
  validate_routes servers i (r ∷ rest) errs =
      validate_routes servers (i + 1) rest (validate_route servers i r errs)

module _ (decode_base64 : Str → Option Str) where
  unfoldable pub validate_basic_auth_token : Str → Field → Option FieldError
  unfolding check_user
  validate_basic_auth_token token f = elim (decode_base64 token) [
    | none ↦ fail f Problem.base64_invalid
    | some decoded ↦ check_user (before_colon decoded) f
  ]

module _ (parse_url : Str → Option Url) (decode_base64 : Str → Option Str) where
  unfoldable pub validate_health_check : Str → ServerHealthCheck → List FieldError → List FieldError
  unfolding add
  validate_health_check name h errs =
      if is_empty h.endpoint
      then errs
      else let e1 = add errs (validate_url parse_url h.endpoint (Field.check_endpoint name)) in
        let e2 = validate_optional_timeout e1 h.interval (Field.check_interval name) in
        let e3 = validate_optional_timeout e2 h.timeout (Field.check_timeout name) in
        if is_empty h.auth_token.value
        then e3
        else add e3 (
            validate_basic_auth_token decode_base64 h.auth_token.value
              (Field.check_auth_token name))

  -- The loop of validateServers; the order of the entries is the order of the range.
  unfoldable pub validate_servers : Map Server → List FieldError → List FieldError
  validate_servers [] errs = errs
  validate_servers ((name, s) ∷ rest) errs = validate_servers rest (
      validate_health_check name s.health_check (
        validate_sleep_on_lan parse_url name s.sleep_on_lan
          (validate_wake_on_lan name s.wake_on_lan errs)))

  -- Config.Validate: `none` is a nil error.
  unfoldable pub validate : Config → Option (List FieldError)
  unfolding report
  validate c = report (
      validate_routes parse_url c.servers 0 c.routes
        (validate_servers c.servers (validate_settings parse_url c.settings [])))
