-- ===== src/Proxy/RouteManager/Closers.antt =====
-- Which listeners of a started manager have a wake coordinator
-- (internal/proxy/route_manager.go).
use smaug.Prelude.{
  ℕ, ◌<◌, Bool, true, false, List, [], ◌∷◌, Option, some, ◌≡◌, inl, inr, refl, In, In-append_cases,
  arith,
}
use smaug.Config.Types.{Config, Route}
use smaug.Proxy.RouteManager.Listeners.{RouteManager}
use smaug.Proxy.RouteManager.{
  add_listener, add_listeners, create_listener, wrap_with_wake_coordinator, start,
}
use smaug.Proxy.RouteManager.Synced.{started}

-- Every listed listener has what wrapWithWakeCoordinator makes for its route of these options and
-- this configuration.
pub record Wraps (options : Option Bool) (cfg : Option Config) (m : RouteManager) : Type 0 where
  pub options_eq : m.wake_options ≡ options
  pub config_eq : m.config ≡ cfg
  pub listed : (i : ℕ) → In i m.routes → i < m.next
  pub closers :
      (i : ℕ)
      → In i m.routes
      → (m.listeners i).closer ≡ wrap_with_wake_coordinator options cfg (m.listeners i).route

module _ (options : Option Bool) (cfg : Option Config) where
  add_listener-Wraps :
      (r : Route) (m : RouteManager) → Wraps options cfg m → Wraps options cfg (add_listener r m)
  unfolding add_listener create_listener
  add_listener-Wraps r m v = record {
    options_eq = v.options_eq;
    config_eq = v.config_eq;
    listed = λ i h. elim (In-append_cases i m.routes (m.next ∷ []) h) [
      | inl old ↦ ground (arith, v.listed i old)
      | inr (inl e) ↦ ground arith
      | inr (inr nowhere) ↦ absurd nowhere
    ];
    closers = λ i h. elim (In-append_cases i m.routes (m.next ∷ []) h) [
      | inl old ↦ ground (arith, v.listed i old, v.closers i old)
      | inr (inl e) ↦ ground (arith, v.options_eq, v.config_eq)
      | inr (inr nowhere) ↦ absurd nowhere
    ];
  }

  add_listeners-Wraps :
      (rs : List Route) (m : RouteManager)
      → Wraps options cfg m
      → Wraps options cfg (add_listeners rs m)
  unfolding add_listeners
  add_listeners-Wraps [] m v = v
  add_listeners-Wraps (r ∷ rs) m v =
      add_listeners-Wraps rs (add_listener r m) (add_listener-Wraps r m v)

-- After Start each listed listener has the coordinator that its route is to have.
pub start-Wraps :
    (m : RouteManager) (cfg : Config)
    → m.config ≡ some cfg
    → m.running ≡ false
    → m.route_map ≡ []
    → Wraps m.wake_options (some cfg) (start m).0
start-Wraps m cfg c idle fresh =
    let eq = started m cfg c idle fresh in
    let v =
      add_listeners-Wraps m.wake_options (some cfg) cfg.routes
        (record m { running = true; routes = [] })
        (record {
          options_eq = refl;
          config_eq = c;
          listed = λ i h. absurd h;
          closers = λ i h. absurd h;
        }) in
    rw eq v
