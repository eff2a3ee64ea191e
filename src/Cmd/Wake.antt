-- ===== src/Cmd/Wake.antt =====
-- initWakeOptions (cmd/smaug/main.go), and which routes wake their server.
use smaug.Prelude.{
  ◌<◌, ◌==◌, ℤ, pos, leb_ℤ, Str, is_empty, Bool, true, false, [], ◌∷◌, Option, none, some, ◌≡◌, ◌≢◌,
  ◌↔◌, ◌⊎◌, subst, In, inl, inr, arith, count_if, if◌then◌else◌, Option-cases,
}
use smaug.Prelude.Map.{Map, lookup, lookup-In}
use smaug.Config.Types.{Config, Route, Server}
use smaug.Client.Gwaihir.{ClientConfig, ConfigError, new_retry_config, new_client}
use smaug.Proxy.WakeCoordinator.{
  WakeCoordinator, new_wake_coordinator, validate_wake_coordinator_config,
}
use smaug.Proxy.RouteManager.{
  wrap_with_wake_coordinator, wake_coordinator_for, or_default, default_wake_timeout,
}

abbrev pub default_gwaihir_timeout : ℤ
default_gwaihir_timeout = pos 5_000_000_000

pub data WakeOptions : Type 0 where
  disabled enabled : WakeOptions
  refused : ConfigError → WakeOptions

-- The configuration of the client.
unfoldable pub gwaihir_client_config : Config → ClientConfig
gwaihir_client_config cfg =
    let g = cfg.settings.gwaihir in
    record {
      base_url = g.url;
      api_key = g.api_key.value;
      timeout = if leb_ℤ g.timeout (pos 0) then default_gwaihir_timeout else g.timeout;
      retry_config = new_retry_config;
    }

abbrev wakes : (Str × Server) → Bool
wakes (name, server) = server.wake_on_lan.enabled

module _ (parse_url : Str → Bool) where
  unfoldable pub init_wake_options : Config → WakeOptions
  unfolding gwaihir_client_config
  init_wake_options cfg =
      if is_empty cfg.settings.gwaihir.url
      then WakeOptions.disabled
      else if count_if wakes cfg.servers == 0
      then WakeOptions.disabled
      else elim (new_client parse_url (gwaihir_client_config cfg) true) [
        | none ↦ WakeOptions.enabled
        | some e ↦ WakeOptions.refused e
      ]

-- What initRouteManager makes of the options: whether there are any, with a sender.
abbrev pub set_options : WakeOptions → Option Bool
set_options WakeOptions.enabled = some true
set_options _ = none

waking_counted :
    (servers : Map Server) (name : Str) (server : Server)
    → In (name, server) servers
    → server.wake_on_lan.enabled ≡ true
    → 0 < count_if wakes servers
unfolding count_if
waking_counted [] name server h e = absurd h
waking_counted ((j, s) ∷ servers) name server (inl same) e =
    let here : s.wake_on_lan.enabled ≡ true =
      subst (λ (x : Str × Server). x.1.wake_on_lan.enabled ≡ true) same e in
    ground arith
waking_counted ((j, s) ∷ servers) name server (inr h) e =
    let more = waking_counted servers name server h e in ground arith

-- The server of a route, if it can be woken.
abbrev pub IsWakeable : Config → Route → Type 0
IsWakeable cfg route =
    (route.server ≢ [])
    × (server : Server) × (lookup route.server cfg.servers ≡ some server)
    × (server.wake_on_lan.enabled ≡ true)
    × (server.wake_on_lan.machine_id ≢ [])

is_empty-false : (s : Str) → (is_empty s ≡ false) ↔ (s ≢ [])
is_empty-false [] = ground arith
is_empty-false (c ∷ s) = ground arith

positive_timeout : (z : ℤ) → leb_ℤ (or_default z default_wake_timeout) (pos 0) ≡ false
positive_timeout z = ground arith

coordinator_iff :
    (route : Route) (server : Server)
    → ((c : WakeCoordinator) × (wake_coordinator_for true route server ≡ some c))
      ↔ ((route.server ≢ []) × (server.wake_on_lan.machine_id ≢ []))
unfolding wake_coordinator_for new_wake_coordinator validate_wake_coordinator_config
coordinator_iff route server = (
  λ (c, e).
      ground (arith, is_empty-false route.server, is_empty-false server.wake_on_lan.machine_id),
  λ (named, known).
      let n = (is_empty-false route.server).1 named in
      let k = (is_empty-false server.wake_on_lan.machine_id).1 known in
      let p = positive_timeout server.wake_on_lan.timeout in
      elim (Option-cases (wake_coordinator_for true route server)) [
        | inl none_made ↦ absurd (ground arith)
        | inr made ↦ made
      ],
)

wrapped_iff :
    (cfg : Config) (route : Route)
    → ((c : WakeCoordinator) × (wrap_with_wake_coordinator (some true) (some cfg) route ≡ some c))
      ↔ IsWakeable cfg route
unfolding wrap_with_wake_coordinator
wrapped_iff cfg route = (
  λ (c, e). elim (Option-cases (lookup route.server cfg.servers)) [
    | inl absent ↦ absurd (ground arith)
    | inr (server, found) ↦
        let made : wake_coordinator_for true route server ≡ some c = ground arith in
        let (named, known) = (coordinator_iff route server).0 (c, made) in
        (named, server, found, ground arith, known)
  ],
  λ (named, server, found, on, known).
      let n = (is_empty-false route.server).1 named in
      let (c, made) = (coordinator_iff route server).1 (named, known) in (c, ground arith),
)

not_wrapped :
    (cfg : Config) (route : Route) (c : WakeCoordinator)
    → ¬ (wrap_with_wake_coordinator none (some cfg) route ≡ some c)
unfolding wrap_with_wake_coordinator
not_wrapped cfg route c e = ground arith

-- The options of a program that is set up.
options_cases :
    (parse_url : Str → Bool) (cfg : Config)
    → ((e : ConfigError) → init_wake_options parse_url cfg ≢ WakeOptions.refused e)
    → ((init_wake_options parse_url cfg ≡ WakeOptions.enabled) × (cfg.settings.gwaihir.url ≢ []))
      ⊎ ((init_wake_options parse_url cfg ≡ WakeOptions.disabled)
          × ((cfg.settings.gwaihir.url ≡ []) ⊎ (count_if wakes cfg.servers ≡ 0)))
unfolding init_wake_options
options_cases parse_url cfg accepted =
    let url = is_empty-false cfg.settings.gwaihir.url in
    elim (Option-cases (new_client parse_url (gwaihir_client_config cfg) true)) [
      | inl made ↦ ground arith
      | inr (e, fails) ↦ let not_refused = accepted e in ground arith
    ]

-- Once the program is set up, a request of a route goes through a wake coordinator exactly if the
-- Gwaihir URL is set, the route names a configured server with Wake-on-LAN enabled, and the
-- server's machine ID is not empty.
pub woken_iff :
    (parse_url : Str → Bool) (cfg : Config) (route : Route)
    → ((e : ConfigError) → init_wake_options parse_url cfg ≢ WakeOptions.refused e)
    → ((c : WakeCoordinator) × (wrap_with_wake_coordinator
            (set_options (init_wake_options parse_url cfg))
            (some cfg)
            route
          ≡ some c))
      ↔ ((cfg.settings.gwaihir.url ≢ []) × IsWakeable cfg route)
woken_iff parse_url cfg route accepted = elim (options_cases parse_url cfg accepted) [
  | inl (on, set) ↦ (
    λ (c, e). (set, (wrapped_iff cfg route).0 (c, rw on at e)),
    λ (_, wakeable). rw on ((wrapped_iff cfg route).1 wakeable),
  )
  | inr (off, why) ↦ (
    λ (c, e). absurd (not_wrapped cfg route c (rw off at e)),
    λ (set, (named, server, found, wakes_on, known)).
        let counted =
          waking_counted cfg.servers route.server server
            (lookup-In route.server server cfg.servers found) wakes_on in
        absurd (ground arith),
  )
]
