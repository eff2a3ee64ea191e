-- ===== src/Proxy/RouteManager/Runs.antt =====
-- A manager from its start through any number of reloads.
use smaug.Prelude.{
  ℕ, Str, true, false, List, [], ◌∷◌, Option, some, ◌≡◌, inl, inr, refl, In, In-append_cases, arith,
}
use smaug.Prelude.Map.{Map, lookup}
use smaug.Config.Types.{Config, Route}
use smaug.Proxy.Reload.{IsRange}
use smaug.Proxy.Reload.Index.{index}
use smaug.Proxy.RouteManager.Listeners.{RouteManager, World, modify, set_state}
use smaug.Proxy.RouteManager.{start, add_listener, add_listeners, create_listener, is_stopped}
use smaug.Proxy.RouteManager.Changes.{handle_reload}
use smaug.Proxy.RouteManager.Stopping.{view, SameRoutes}
use smaug.Proxy.RouteManager.Reloading.{handle_reload-ok}
use smaug.Proxy.RouteManager.Synced.{IsListed, add_listener-IsListed, started, start-IsSynced}
use smaug.Proxy.RouteManager.Invariant.{Inv}
use smaug.Proxy.RouteManager.Kept.{handle_reload-Inv, SameRoutes-IsSynced}
use smaug.Proxy.RouteManager.Goroutines.{
  Goroutines, Move, begin_run, probe_read, probe_write, probe_close, serve_fail, fail_close,
  close_started,
}

-- No listener in the list of routes has been stopped.
abbrev IsLive : RouteManager → Type 0
IsLive m = (i : ℕ) → In i m.routes → is_stopped (m.listeners i).state ≡ false

add_listener-IsLive :
    (r : Route) (m : RouteManager) → IsListed m → IsLive m → IsLive (add_listener r m)
unfolding add_listener create_listener
add_listener-IsLive r m listed live i h = elim (In-append_cases i m.routes (m.next ∷ []) h) [
  | inl old ↦ ground (arith, live i old, listed i old)
  | inr (inl e) ↦ ground arith
  | inr (inr nowhere) ↦ absurd nowhere
]

add_listeners-IsLive :
    (rs : List Route) (m : RouteManager)
    → IsListed m
    → IsLive m
    → IsListed (add_listeners rs m) × IsLive (add_listeners rs m)
unfolding add_listeners
add_listeners-IsLive [] m listed live = (listed, live)
add_listeners-IsLive (r ∷ rs) m listed live =
    add_listeners-IsLive rs (add_listener r m) (add_listener-IsListed r m listed)
      (add_listener-IsLive r m listed live)

start-Inv :
    (m : RouteManager) (cfg : Config)
    → m.config ≡ some cfg
    → m.running ≡ false
    → m.route_map ≡ []
    → Inv (start m).0
start-Inv m cfg c idle fresh =
    let eq = started m cfg c idle fresh in
    let (listed, live) =
      add_listeners-IsLive cfg.routes (record m { running = true; routes = [] }) (λ i h. absurd h)
        (λ i h. absurd h) in
    let (synced, allocated, routes) = start-IsSynced m cfg c idle fresh in
    record { synced = synced; allocated = allocated; listed = rw eq listed; live = rw eq live }

-- What a manager can come to: it is started with no routes yet, and then reloads, each with some
-- configuration and in some world, and steps of its listeners' goroutines follow in any order.
pub data Runs (range : Map Route → Map Route) : RouteManager → Type 0 where
  begun :
      (m : RouteManager) (cfg : Config)
      → m.config ≡ some cfg
      → m.running ≡ false
      → m.route_map ≡ []
      → Runs range (start m).0
  reloaded :
      {m : RouteManager} (w : World) (cfg : Option Config)
      → Runs range m
      → Runs range (handle_reload range w (record m { config = cfg })).0
  moved :
      {m : RouteManager} (i : ℕ) (g h : Goroutines)
      → m.listeners i ≡ g.listener
      → Move g h
      → Runs range m
      → Runs range (modify i (λ l. h.listener) m)

with_config : (m : RouteManager) (cfg : Option Config) → Inv m → Inv (record m { config = cfg })
with_config m cfg v = record {
  synced = v.synced;
  allocated = v.allocated;
  listed = v.listed;
  live = v.live;
}

-- A step of a listener's goroutines keeps its route, and does not stop it.
Move-kept :
    (g h : Goroutines)
    → Move g h
    → (h.listener.route ≡ g.listener.route)
      × (is_stopped g.listener.state ≡ false → is_stopped h.listener.state ≡ false)
unfolding begin_run probe_read probe_write probe_close serve_fail fail_close close_started set_state
Move-kept g _ (Move.begins e) = (refl, λ s. refl)
Move-kept g _ (Move.binds e) = (refl, λ s. s)
Move-kept g _ (Move.bind_fails e) = (refl, λ s. s)
Move-kept g _ (Move.accept_fails e f) = (refl, λ s. s)
Move-kept g _ (Move.writes_error e) = (refl, λ s. refl)
Move-kept g _ (Move.tells e) = (refl, λ s. s)
Move-kept g _ (Move.closed_early e f) = (refl, λ s. s)
Move-kept g _ (Move.closed e f) = (refl, λ s. s)
Move-kept g _ (Move.reads e) = (refl, λ s. s)
Move-kept g _ (Move.writes e) = (refl, λ s. refl)
Move-kept g _ (Move.closes e) = (refl, λ s. s)

pub move-SameRoutes :
    (m : RouteManager) (i : ℕ) (g h : Goroutines)
    → m.listeners i ≡ g.listener
    → Move g h
    → SameRoutes m (modify i (λ l. h.listener) m)
unfolding modify
move-SameRoutes m i g h at step =
    let kept = (Move-kept g h step).0 in
    record { routes = refl; route_map = refl; next = refl; route = λ j. ground arith }

move-Inv :
    (m : RouteManager) (i : ℕ) (g h : Goroutines)
    → m.listeners i ≡ g.listener
    → Move g h
    → Inv m
    → Inv (modify i (λ l. h.listener) m)
unfolding modify
move-Inv m i g h at step v =
    let live = (Move-kept g h step).1 in
    record {
      synced = SameRoutes-IsSynced (move-SameRoutes m i g h at step) v.synced;
      allocated = v.allocated;
      listed = v.listed;
      live = λ j placed. let old = v.live j placed in ground arith;
    }

Runs-Inv : (range : Map Route → Map Route) (m : RouteManager) → Runs range m → Inv m
Runs-Inv range m (begun m0 cfg c idle fresh) = start-Inv m0 cfg c idle fresh
Runs-Inv range m (reloaded {m = m0} w cfg r) =
    handle_reload-Inv range w (record m0 { config = cfg })
      (with_config m0 cfg (Runs-Inv range m0 r))
Runs-Inv range m (moved {m = m0} i g h at step r) = move-Inv m0 i g h at step (Runs-Inv range m0 r)

-- After a start with no routes, any number of reloads, whatever failed in them, and any steps of the
-- listeners' goroutines, a reload that
-- reports no error leaves the map of routes with exactly the routes of its configuration, key by
-- key.
pub reload_serves :
    (range : Map Route → Map Route)
    → IsRange range
    → (m : RouteManager) → Runs range m
    → (w : World) (cfg : Config) → (handle_reload range w (record m { config = some cfg })).1 ≡ []
    → (k : Str)
    → lookup k (view (handle_reload range w (record m { config = some cfg })).0)
      ≡ lookup k (index cfg.routes)
reload_serves range r m runs w cfg ok k =
    let v = with_config m (some cfg) (Runs-Inv range m runs) in
    handle_reload-ok range r w (record m { config = some cfg }) v.allocated v.synced cfg refl ok k
