-- ===== src/Cmd/Targets.antt =====
-- The idle tracker and the sleep sender are set up by two loops over the routes: they agree.
use smaug.Prelude.{
  Str, str_eq, str_eq_iff, is_empty, true, false, Bool-cases, List, [], ◌∷◌, Option, none, some,
  Option-cases, ◌≡◌, ◌⊎◌, inl, inr, refl, In, arith, count_if, ◌==◌, if◌then◌else◌,
}
use smaug.Prelude.Map.{lookup, insert, lookup-insert}
use smaug.Config.Types.{Config, Route, Server}
use smaug.Proxy.IdleTracker.{IdleTracker, RouteEntry, register_route}
use smaug.Client.Sleep.{SleepConfig, NetLib, validate_config}
use smaug.Cmd.{
  RouteSleepSender, Senders, sleeping_server, client_config, register_routes, add_senders,
  init_idle_tracker, no_senders, has_sleep, default_idle_check_interval, Slept, sleep_route,
}
use smaug.Proxy.IdleTracker as Tracker
use smaug.Proxy.IdleTracker.{new_idle_tracker}
use smaug.Client.Sleep.{SleepRequest, SleepReply, send_sleep}
use smaug.Health.Store.{InMemoryHealthStore, ServerHealthStatus, get}

-- What is set up under a name: nothing, or all of it for one route with this name.
abbrev pub Agrees : Config → Str → Option RouteEntry → Option SleepConfig → Option Str → Type 0
Agrees cfg k entry client server_id =
    ((entry ≡ none) × (client ≡ none) × (server_id ≡ none))
    ⊎ ((route : Route) × (server : Server) × In route cfg.routes
        × (route.name ≡ k)
        × (sleeping_server cfg route ≡ some server)
        × (entry ≡ some (record { idle_timeout = server.sleep_on_lan.idle_timeout; last_seen = 0 }))
        × (client ≡ some (client_config server))
        × (server_id ≡ some route.server))

abbrev pub InStep : Config → IdleTracker → RouteSleepSender → Type 0
InStep cfg t s =
    (k : Str) → Agrees cfg k (lookup k t.routes) (lookup k s.senders) (lookup k s.server_ids)

module _ (cfg : Config) (t : IdleTracker) (s : RouteSleepSender) (a : InStep cfg t s)
    (route : Route) (server : Server) (i : In route cfg.routes)
    (sleeps : sleeping_server cfg route ≡ some server) where
  abbrev fresh : RouteEntry
  fresh = record { idle_timeout = server.sleep_on_lan.idle_timeout; last_seen = 0 }

  abbrev registered : IdleTracker
  registered = register_route t route.name server.sleep_on_lan.idle_timeout

  abbrev added : RouteSleepSender
  added = record {
    senders = insert route.name (client_config server) s.senders;
    server_ids = insert route.name route.server s.server_ids;
  }

  registered-lookup :
      (k : Str)
      → lookup k registered.routes ≡ (
          if str_eq route.name k
          then some (record { idle_timeout = server.sleep_on_lan.idle_timeout; last_seen = 0 })
          else lookup k t.routes)
  unfolding register_route
  registered-lookup k = elim (a route.name) [
    | inl (e, c, d) ↦ ground (arith, lookup-insert route.name k fresh t.routes)
    | inr (r, v, j, n, sl, e, c, d) ↦ ground (arith, lookup-insert route.name k fresh t.routes)
  ]

  InStep-add : InStep cfg registered added
  InStep-add k =
      let entry = registered-lookup k in
      let client = lookup-insert route.name k (client_config server) s.senders in
      let server_id = lookup-insert route.name k route.server s.server_ids in
      rw (entry, client, server_id)
        (elim (Bool-cases (str_eq route.name k)) [
          | inl hit ↦
              rw hit
                (inr (route, server, i, (str_eq_iff route.name k).0 hit, sleeps, refl, refl, refl))
          | inr miss ↦ rw miss (a k)
        ])

register_routes-skips :
    (cfg : Config) (route : Route) (rs : List Route) (t : IdleTracker)
    → sleeping_server cfg route ≡ none
    → register_routes cfg (route ∷ rs) t ≡ register_routes cfg rs t
unfolding register_routes
register_routes-skips cfg route rs t e = simp (register_routes, e)

register_routes-takes :
    (cfg : Config) (route : Route) (rs : List Route) (t : IdleTracker) (server : Server)
    → sleeping_server cfg route ≡ some server
    → register_routes cfg (route ∷ rs) t
      ≡ register_routes cfg rs (register_route t route.name server.sleep_on_lan.idle_timeout)
unfolding register_routes
register_routes-takes cfg route rs t server e = simp (register_routes, e)

-- The server of every route that sleeps names its endpoint.
abbrev pub HasEndpoints : Config → Type 0
HasEndpoints cfg =
    (route : Route) (server : Server)
    → In route cfg.routes
    → sleeping_server cfg route ≡ some server
    → is_empty server.sleep_on_lan.endpoint ≡ false

module _ (net : NetLib) (cfg : Config) (named : HasEndpoints cfg) where
  loops-InStep :
      (rs : List Route) (t : IdleTracker) (s s' : RouteSleepSender)
      → ((route : Route) → In route rs → In route cfg.routes)
      → InStep cfg t s
      → add_senders net cfg rs s ≡ Senders.ready s'
      → InStep cfg (register_routes cfg rs t) s'
  unfolding register_routes add_senders
  loops-InStep [] t s s' sub a h = let same : s ≡ s' = ground arith in rw (← same) a
  loops-InStep (route ∷ rs) t s s' sub a h =
      let sub' : (r : Route) → In r rs → In r cfg.routes = λ r i. sub r (inr i) in
      elim (Option-cases (sleeping_server cfg route)) [
        | inl awake ↦
            let skips = register_routes-skips cfg route rs t awake in
            rw skips (loops-InStep rs t s s' sub' a (ground arith))
        | inr (server, sleeps) ↦
            let i = sub route (inl refl) in
            let takes = register_routes-takes cfg route rs t server sleeps in
            let has_endpoint = named route server i sleeps in
            elim (Option-cases (validate_config net (client_config server) true)) [
              | inl ok ↦ rw takes (
                  loops-InStep rs (registered cfg t s a route server i sleeps)
                    (added cfg t s a route server i sleeps) s' sub'
                    (InStep-add cfg t s a route server i sleeps) (ground arith))
              | inr (e, bad) ↦ absurd (ground arith)
            ]
      ]

  fresh_tracker :
      (t : IdleTracker)
      → init_idle_tracker cfg ≡ some t
      → (t0 : IdleTracker) × (t0.routes ≡ []) × (t ≡ register_routes cfg cfg.routes t0)
  unfolding init_idle_tracker new_idle_tracker Tracker.set_metrics
  fresh_tracker t e = elim (Bool-cases (count_if (has_sleep cfg) cfg.routes == 0)) [
    | inl idle ↦ absurd (ground arith)
    | inr used ↦ (
      record {
        check_interval = default_idle_check_interval;
        metrics = true;
        routes = [];
        sleep_ch = [];
        running = false;
        checker = false;
        lingering = 0;
        recorded = [];
      },
      refl,
      ground arith,
    )
  ]

  -- Provided that the server of every route that sleeps names its endpoint: when the set-up
  -- succeeds, each name either has no idle timeout and no sleep client, or has the idle timeout,
  -- the client and the server identifier of one and the same route with this name, whose server
  -- has Sleep-on-LAN enabled, and has not been seen yet.
  pub setup_agrees :
      (t : IdleTracker) (s : RouteSleepSender)
      → init_idle_tracker cfg ≡ some t
      → add_senders net cfg cfg.routes no_senders ≡ Senders.ready s
      → InStep cfg t s
  setup_agrees t s e h =
      let (t0, none_yet, eq) = fresh_tracker t e in
      rw eq (
        loops-InStep cfg.routes t0 no_senders s (λ r i. i)
          (λ k.
            inl (rw none_yet (unfold lookup in refl), unfold lookup in refl, unfold lookup in refl))
          h)

-- A trigger for a route with a client sends the command of this client, with its endpoint and its
-- token, unless the store says that the route's server, which is known, is unhealthy.
pub sleep_route_iff :
    (exchange : SleepRequest → SleepReply) (r : RouteSleepSender) (store : InMemoryHealthStore)
    (route_id server_id : Str) (client : SleepConfig)
    → lookup route_id r.senders ≡ some client
    → lookup route_id r.server_ids ≡ some server_id
    → ((sleep_route exchange r (some store) route_id ≡ Slept.sent (send_sleep exchange client))
        × ((st : ServerHealthStatus) → get store server_id ≡ some st → st.healthy ≡ true))
      ⊎ ((sleep_route exchange r (some store) route_id ≡ Slept.already_offline)
          × ((st : ServerHealthStatus) × (get store server_id ≡ some st) × (st.healthy ≡ false)))
unfolding sleep_route
sleep_route_iff exchange r store route_id server_id client c i =
    elim (Option-cases (get store server_id)) [
      | inl unknown ↦ inl (ground arith, λ st e. absurd (ground arith))
      | inr (st, known) ↦ elim (Bool-cases st.healthy) [
        | inl up ↦ inl (ground arith, λ st' e. ground arith)
        | inr down ↦ inr (ground arith, (st, known, down))
      ]
    ]
