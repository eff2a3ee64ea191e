-- ===== src/Config/Validation/Complete.antt =====
-- validation.go accepts exactly the configurations that meet the rules.
use smaug.Prelude.{
  ℕ, ◌+◌, Str, is_empty, Option-cases, if◌then◌else◌, List, [], ◌∷◌, Option, none, some, ◌≡◌, ◌⊎◌,
  ◌↔◌, inl, inr, refl, In, All, arith,
}
use smaug.Prelude.Map.{Map, keys, lookup, lookup-In-keys, In-keys-lookup}
use smaug.Config.Types.{Config, SettingsConfig, Server, SleepOnLanConfig, ServerHealthCheck, Route}
use smaug.Config.Validation.Fields.{Url, Field, Problem, FieldError}
use smaug.Config.Validation.Rules.{
  IsLogging, IsObservability, IsAuthToken, IsGwaihir, IsSleepOnLan, IsHealthCheck, IsServer,
  IsRoute, IsConfig,
}
use smaug.Config.Validation.{
  add, validate_port, validate_optional_timeout, validate_logging, validate_wake_on_lan,
  validate_url, validate_basic_auth_token, validate_gwaihir, validate_settings,
  validate_sleep_on_lan, validate_health_check, validate_servers, validate_route, validate_routes,
  check_reference, report, validate,
}
use smaug.Config.Validation.Checks.{
  add_iff, validate_port_iff, optional_timeout_iff, is_empty_iff, validate_logging_iff,
  validate_observability_iff, validate_wake_on_lan_iff, check_user_iff, validate_url_iff,
  validate_gwaihir_iff,
}

has_errors-nil : (errs : List FieldError) → report errs ≡ none → errs ≡ []
unfolding report
has_errors-nil [] h = refl
has_errors-nil (e ∷ es) h = cc

module _ (decode_base64 : Str → Option Str) where
  validate_basic_auth_token_accepts :
      (t : Str) (f : Field)
      → validate_basic_auth_token decode_base64 t f ≡ none
      → IsAuthToken decode_base64 t
  unfolding validate_basic_auth_token
  validate_basic_auth_token_accepts t f h = elim (Option-cases (decode_base64 t)) [
    | inl e ↦ ground arith
    | inr (d, e) ↦ (d, e, (check_user_iff d f).0 (ground arith))
  ]

  validate_basic_auth_token_iff :
      (t : Str) (f : Field)
      → (validate_basic_auth_token decode_base64 t f ≡ none) ↔ IsAuthToken decode_base64 t
  unfolding validate_basic_auth_token
  validate_basic_auth_token_iff t f = (
    validate_basic_auth_token_accepts t f,
    λ h. rw (h.1, validate_basic_auth_token) ((check_user_iff h.0 f).1 h.2),
  )

check_reference_iff :
    (servers : Map Server) (i : ℕ) (name : Str)
    → (check_reference servers i name ≡ none) ↔ ((name ≡ []) ⊎ In name (keys servers))
unfolding check_reference
check_reference_iff servers i name = elim (Option-cases (lookup name servers)) [
  | inl e ↦ rw e (
    λ h. ground (arith, is_empty_iff name),
    λ h. elim h [
      | inl z ↦ ground (arith, is_empty_iff name)
      | inr m ↦ let (v, f) = In-keys-lookup name servers m in cc
    ],
  )
  | inr (v, e) ↦ rw e (λ h. inr (lookup-In-keys name v servers e), λ h. ground arith)
]

module _ (parse_url : Str → Option Url) where
  validate_settings_iff :
      (s : SettingsConfig) (errs : List FieldError)
      → (validate_settings parse_url s errs ≡ []) ↔ (
          (errs ≡ [])
          × IsGwaihir parse_url s.gwaihir
          × IsLogging s.logging
          × IsObservability s.observability)
  unfolding validate_settings
  validate_settings_iff s errs =
      let e1 = validate_gwaihir parse_url s.gwaihir errs in
      let gwaihir = validate_gwaihir_iff parse_url s.gwaihir errs in
      let logging = validate_logging_iff s.logging e1 in
      let rest = validate_observability_iff s.observability (validate_logging s.logging e1) in
      (
        λ h.
            let o = rest.0 h in
            let l = logging.0 o.0 in let g = gwaihir.0 l.0 in (g.0, g.1, l.1, o.1),
        λ h. rest.1 (logging.1 (gwaihir.1 (h.0, h.1), h.2), h.3),
      )

  validate_sleep_on_lan_iff :
      (name : Str) (s : SleepOnLanConfig) (errs : List FieldError)
      → (validate_sleep_on_lan parse_url name s errs ≡ [])
        ↔ ((errs ≡ []) × IsSleepOnLan parse_url s)
  unfolding validate_sleep_on_lan
  validate_sleep_on_lan_iff name s errs =
      let checked = add errs (validate_url parse_url s.endpoint (Field.sleep_endpoint name)) in
      ground (
        arith,
        validate_url_iff parse_url s.endpoint (Field.sleep_endpoint name),
        add_iff errs (validate_url parse_url s.endpoint (Field.sleep_endpoint name)),
        optional_timeout_iff checked s.idle_timeout (Field.sleep_idle_timeout name),
      )

  validate_route_iff :
      (servers : Map Server) (i : ℕ) (r : Route) (errs : List FieldError)
      → (validate_route parse_url servers i r errs ≡ [])
        ↔ ((errs ≡ []) × IsRoute parse_url servers r)
  unfolding validate_route
  validate_route_iff servers i r errs =
      let e1 =
        (if is_empty r.name
          then add errs (some (Field.route_name i, Problem.name_empty))
          else errs) in
      let e2 = add e1 (validate_port r.listen (Field.route_listen i)) in
      let e3 = add e2 (validate_url parse_url r.upstream (Field.route_upstream i)) in
      ground (
        arith,
        is_empty_iff r.name,
        add_iff errs (some (Field.route_name i, Problem.name_empty)),
        validate_port_iff r.listen (Field.route_listen i),
        add_iff e1 (validate_port r.listen (Field.route_listen i)),
        validate_url_iff parse_url r.upstream (Field.route_upstream i),
        add_iff e2 (validate_url parse_url r.upstream (Field.route_upstream i)),
        check_reference_iff servers i r.server,
        add_iff e3 (check_reference servers i r.server),
      )

  validate_routes_iff :
      (servers : Map Server) (i : ℕ) (rs : List Route) (errs : List FieldError)
      → (validate_routes parse_url servers i rs errs ≡ [])
        ↔ ((errs ≡ []) × All (IsRoute parse_url servers) rs)
  unfolding validate_routes
  validate_routes_iff servers i [] errs = (λ h. (h, tt), λ h. h.0)
  validate_routes_iff servers i (r ∷ rs) errs =
      let rest =
        validate_routes_iff servers (i + 1) rs (validate_route parse_url servers i r errs) in
      let first = validate_route_iff servers i r errs in
      (
        λ h. let t = rest.0 h in let f = first.0 t.0 in (f.0, (f.1, t.1)),
        λ h. rest.1 (first.1 (h.0, h.1.0), h.1.1),
      )

module _ (parse_url : Str → Option Url) (decode_base64 : Str → Option Str) where
  validate_health_check_iff :
      (name : Str) (h : ServerHealthCheck) (errs : List FieldError)
      → (validate_health_check parse_url decode_base64 name h errs ≡ [])
        ↔ ((errs ≡ []) × IsHealthCheck parse_url decode_base64 h)
  unfolding validate_health_check
  validate_health_check_iff name h errs =
      let token = h.auth_token.value in
      let e1 = add errs (validate_url parse_url h.endpoint (Field.check_endpoint name)) in
      let e2 = validate_optional_timeout e1 h.interval (Field.check_interval name) in
      let e3 = validate_optional_timeout e2 h.timeout (Field.check_timeout name) in
      ground (
        arith,
        is_empty_iff h.endpoint,
        is_empty_iff token,
        validate_url_iff parse_url h.endpoint (Field.check_endpoint name),
        add_iff errs (validate_url parse_url h.endpoint (Field.check_endpoint name)),
        optional_timeout_iff e1 h.interval (Field.check_interval name),
        optional_timeout_iff e2 h.timeout (Field.check_timeout name),
        validate_basic_auth_token_iff decode_base64 token (Field.check_auth_token name),
        add_iff e3 (validate_basic_auth_token decode_base64 token (Field.check_auth_token name)),
      )

  validate_servers_iff :
      (servers : Map Server) (errs : List FieldError)
      → (validate_servers parse_url decode_base64 servers errs ≡ [])
        ↔ ((errs ≡ []) × All (λ (e : Str × Server). IsServer parse_url decode_base64 e.1) servers)
  unfolding validate_servers
  validate_servers_iff [] errs = (λ h. (h, tt), λ h. h.0)
  validate_servers_iff ((name, s) ∷ rest) errs =
      let e1 = validate_wake_on_lan name s.wake_on_lan errs in
      let e2 = validate_sleep_on_lan parse_url name s.sleep_on_lan e1 in
      let e3 = validate_health_check parse_url decode_base64 name s.health_check e2 in
      let others = validate_servers_iff rest e3 in
      let wake = validate_wake_on_lan_iff name s.wake_on_lan errs in
      let sleep = validate_sleep_on_lan_iff parse_url name s.sleep_on_lan e1 in
      let check = validate_health_check_iff name s.health_check e2 in
      (
        λ h.
            let o = others.0 h in
            let c = check.0 o.0 in
            let sl = sleep.0 c.0 in let w = wake.0 sl.0 in (w.0, ((w.1, sl.1, c.1), o.1)),
        λ h. others.1 (check.1 (sleep.1 (wake.1 (h.0, h.1.0.0), h.1.0.1), h.1.0.2), h.1.1),
      )

  -- `Validate` returns no error exactly for a configuration in which every setting, every server
  -- and every route is valid, whatever the URL parser and the base64 decoder are. A basic-auth token
  -- is valid if it decodes to a text with a first colon that is not at its head; more may follow.
  pub validate_iff :
      (c : Config)
      → (validate parse_url decode_base64 c ≡ none) ↔ IsConfig parse_url decode_base64 c
  unfolding validate
  validate_iff c =
      let e1 = validate_settings parse_url c.settings [] in
      let e2 = validate_servers parse_url decode_base64 c.servers e1 in
      let e3 = validate_routes parse_url c.servers 0 c.routes e2 in
      let settings = validate_settings_iff parse_url c.settings [] in
      let servers = validate_servers_iff c.servers e1 in
      let routes = validate_routes_iff parse_url c.servers 0 c.routes e2 in
      (
        λ h.
            let r = routes.0 (has_errors-nil e3 h) in
            let v = servers.0 r.0 in let s = settings.0 v.0 in (s.1, s.2, s.3, v.1, r.1),
        λ h. rw (routes.1 (servers.1 (settings.1 (refl, h.0, h.1, h.2), h.3), h.4)),
      )
