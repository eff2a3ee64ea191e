-- ===== src/Proxy/RouteManager/Status.antt =====
-- internal/proxy/route_manager.go: what the manager tells of its listeners.
use smaug.Prelude.{ℕ, ℤ, Str, Bool, true, false, List, map, count_if}
use smaug.Proxy.RouteManager.Listeners.{ListenerState, RouteManager}

abbrev pub is_running : ListenerState → Bool
is_running ListenerState.running = true
is_running _ = false

unfoldable pub get_active_route_count : RouteManager → ℕ
get_active_route_count m = count_if (λ i. is_running (m.listeners i).state) m.routes

pub record RouteInfo : Type 0 where
  pub name : Str
  pub port : ℤ
  pub upstream : Str
  pub server : Str
  pub state : ListenerState

unfoldable pub get_active_routes : RouteManager → List RouteInfo
get_active_routes m =
    map
      (λ i.
        let l = m.listeners i in
        record {
          name = l.route.name;
          port = l.route.listen;
          upstream = l.route.upstream;
          server = l.route.server;
          state = l.state;
        })
      m.routes
