-- ===== src/Cmd/Setup/Serving.antt =====
-- What initRouteManager (cmd/smaug/main.go) leaves running.
use smaug.Prelude.{
  ℕ, Str, Bool, true, false, List, [], ◌∷◌, Option, none, some, Option-cases, ◌⊎◌, subst, sym, ◌≡◌,
  ◌≢◌, ◌↔◌, inl, inr, refl, In, arith, ◌∙◌, ap,
}
use smaug.Prelude.Map.{lookup}
use smaug.Config.Types.{Config, Route}
use smaug.Proxy.Handler.{Recorder}
use smaug.Proxy.Reload.Index.{index}
use smaug.Proxy.WakeCoordinator.{WakeCoordinator}
use smaug.Proxy.RouteManager.Listeners.{
  RouteManager, MissingDependency, ManagerDependencies, NewRouteManager, new_route_manager,
  validate_dependencies,
}
use smaug.Proxy.RouteManager.{
  add_listener, add_listeners, set_wake_options, set_idle_tracker, set_metrics, start,
  wrap_with_wake_coordinator,
}
use smaug.Proxy.RouteManager.Changes.{routes_of}
use smaug.Proxy.RouteManager.Synced.{start-IsSynced}
use smaug.Proxy.RouteManager.Closers.{start-Wraps}
use smaug.Proxy.Watcher.Serving.{Serves}
use smaug.Client.Gwaihir.{ConfigError}
use smaug.Cmd.Wake.{WakeOptions, set_options, init_wake_options, woken_iff, IsWakeable}
use smaug.Cmd.Setup.{RoutesUp, set_up_routes, init_route_manager}

-- A manager that has not run, with this configuration and these options.
abbrev IsReady : Option Config → Option Bool → RouteManager → Type 0
IsReady cfg options m =
    (m.config ≡ cfg) × (m.running ≡ false) × (m.route_map ≡ []) × (m.wake_options ≡ options)

new-IsReady :
    (d : ManagerDependencies) (cfg : Option Config) (m : RouteManager)
    → d.config_mgr ≡ cfg
    → new_route_manager d ≡ NewRouteManager.made m
    → IsReady cfg none m
unfolding new_route_manager
new-IsReady d cfg m given e = (ground arith, ground arith, ground arith, ground arith)

set_up-IsReady :
    (cfg : Option Config) (wake : WakeOptions) (rec : Recorder) (reg : Bool) (m : RouteManager)
    → IsReady cfg none m
    → IsReady cfg (set_options wake) (set_up_routes wake rec reg m)
unfolding set_up_routes set_wake_options set_idle_tracker set_metrics
set_up-IsReady cfg wake rec reg m (c, idle, fresh, o) = elim (Option-cases (set_options wake)) [
  | inl off ↦ (ground arith, ground arith, ground arith, ground arith)
  | inr (sender, on) ↦ (ground arith, ground arith, ground arith, ground arith)
]

made_or_missing :
    (x : NewRouteManager)
    → ((m : RouteManager) × (x ≡ NewRouteManager.made m))
      ⊎ ((e : MissingDependency) × (x ≡ NewRouteManager.missing e))
made_or_missing (NewRouteManager.made m) = inl (m, refl)
made_or_missing (NewRouteManager.missing e) = inr (e, refl)

new_route_manager-made :
    (d : ManagerDependencies) (cfg : Config)
    → d.config_mgr ≡ some cfg
    → d.has_logger ≡ true
    → d.has_middleware ≡ true
    → d.has_store ≡ true
    → (m : RouteManager) × (new_route_manager d ≡ NewRouteManager.made m)
unfolding new_route_manager validate_dependencies
new_route_manager-made d cfg given logger middleware store =
    elim (made_or_missing (new_route_manager d)) [
      | inl made ↦ made
      | inr (e, missing) ↦ absurd (ground arith)
    ]

add_listeners-running :
    (rs : List Route) (m : RouteManager) → (add_listeners rs m).running ≡ m.running
unfolding add_listeners add_listener
add_listeners-running [] m = refl
add_listeners-running (r ∷ rs) m = add_listeners-running rs (add_listener r m)

start-running :
    (m : RouteManager) (cfg : Config)
    → m.config ≡ some cfg
    → m.running ≡ false
    → (start m).0.running ≡ true
unfolding start
start-running m cfg c idle =
    let kept = add_listeners-running cfg.routes (record m { running = true; routes = [] }) in
    ground arith

-- With everything given, initRouteManager succeeds, and its manager is the started one.
init_route_manager-up :
    (d : ManagerDependencies) (cfg : Config) (wake : WakeOptions) (rec : Recorder) (reg : Bool)
    → d.config_mgr ≡ some cfg
    → d.has_logger ≡ true
    → d.has_middleware ≡ true
    → d.has_store ≡ true
    → (m : RouteManager) × (new_route_manager d ≡ NewRouteManager.made m)
      × (init_route_manager d wake rec reg ≡ RoutesUp.up (start (set_up_routes wake rec reg m)).0)
unfolding init_route_manager
init_route_manager-up d cfg wake rec reg given logger middleware store =
    let (m, made) = new_route_manager-made d cfg given logger middleware store in
    let (c, idle, fresh, o) =
      set_up-IsReady (some cfg) wake rec reg m (new-IsReady d (some cfg) m given made) in
    let ok : (start (set_up_routes wake rec reg m)).1 ≡ none = unfold start in ground arith in
    (m, made, simp (init_route_manager, made, ok))

module _ (parse_url : Str → Bool) (cfg : Config)
    (accepted : (e : ConfigError) → init_wake_options parse_url cfg ≢ WakeOptions.refused e) where
  -- What is to hold once the routes are up.
  abbrev IsUp : RouteManager → Type 0
  IsUp m =
      (m.running ≡ true)
      × (routes_of m ≡ cfg.routes)
      × Serves m cfg
      × ((i : ℕ)
          → In i m.routes
          → ((c : WakeCoordinator) × ((m.listeners i).closer ≡ some c))
            ↔ ((cfg.settings.gwaihir.url ≢ []) × IsWakeable cfg (m.listeners i).route))

  start-IsUp :
      (m : RouteManager)
      → IsReady (some cfg) (set_options (init_wake_options parse_url cfg)) m
      → IsUp (start m).0
  start-IsUp m (c, idle, fresh, o) =
      let (synced, allocated, listed) = start-IsSynced m cfg c idle fresh in
      let wraps = start-Wraps m cfg c idle fresh in
      (
        start-running m cfg c idle,
        listed,
        (λ k. synced k ∙ ap (λ rs. lookup k (index rs)) listed),
        (λ i h.
            let route = ((start m).0.listeners i).route in
            let made =
              wraps.closers i h ∙ ap (λ opts. wrap_with_wake_coordinator opts (some cfg) route) o in
            subst
              (λ (x : Option WakeCoordinator).
                ((c : WakeCoordinator) × (x ≡ some c))
                ↔ ((cfg.settings.gwaihir.url ≢ []) × IsWakeable cfg route))
              (sym made) (woken_iff parse_url cfg route accepted)),
      )

-- With everything given and a Gwaihir client that is not refused, initRouteManager succeeds. Its
-- manager runs and has a listener for each configured route, in order, and its map of routes serves
-- exactly these, key by key; and a listener has a wake coordinator exactly if the Gwaihir URL is set,
-- its route names a configured server with Wake-on-LAN enabled, and the server's machine ID is not
-- empty.
pub init_route_manager-Serves :
    (parse_url : Str → Bool) (d : ManagerDependencies) (cfg : Config) (rec : Recorder) (reg : Bool)
    → d.config_mgr ≡ some cfg
    → d.has_logger ≡ true
    → d.has_middleware ≡ true
    → d.has_store ≡ true
    → ((e : ConfigError) → init_wake_options parse_url cfg ≢ WakeOptions.refused e)
    → (m : RouteManager) × (init_route_manager d (init_wake_options parse_url cfg) rec reg
        ≡ RoutesUp.up m)
      × (m.running ≡ true)
      × (routes_of m ≡ cfg.routes)
      × Serves m cfg
      × ((i : ℕ)
          → In i m.routes
          → ((c : WakeCoordinator) × ((m.listeners i).closer ≡ some c))
            ↔ ((cfg.settings.gwaihir.url ≢ []) × IsWakeable cfg (m.listeners i).route))
init_route_manager-Serves parse_url d cfg rec reg given logger middleware store accepted =
    let wake = init_wake_options parse_url cfg in
    let (m, made, up) = init_route_manager-up d cfg wake rec reg given logger middleware store in
    let (running, listed, serves, wakes) =
      start-IsUp parse_url cfg accepted (set_up_routes wake rec reg m)
        (set_up-IsReady (some cfg) wake rec reg m (new-IsReady d (some cfg) m given made)) in
    ((start (set_up_routes wake rec reg m)).0, up, running, listed, serves, wakes)
