-- ===== src/Proxy/Watcher.antt =====
-- The configuration manager and the route manager at work together: the signal of a reload
-- (internal/config/manager.go) and the goroutine of watchConfigReloads
-- (internal/proxy/route_manager.go) that takes it.
pub mod Serving
use smaug.Prelude.{Str, Bool, true, false, List, [], Option, none, some, ◌≡◌, ◌≢◌, ℕ}
use smaug.Prelude.Map.{Map}
use smaug.Config.Types.{Config, Route}
use smaug.Config.Loader.{Libraries}
use smaug.Config.Manager.{ConfigManager, get_config, receive_signal}
use smaug.Config.Manager.Machine.{Step}
use smaug.Proxy.RouteManager.Listeners.{RouteManager, RouteError, World, Listener, modify}
use smaug.Proxy.RouteManager.Goroutines.{Goroutines, Move}
use smaug.Proxy.RouteManager.{start}
use smaug.Proxy.RouteManager.Changes.{handle_reload}

-- Where the goroutine stands: it is not started yet, it waits in its select, it has taken a signal,
-- or it has returned since its context is done.
pub data Watcher : Type 0 where
  unstarted waiting signalled returned : Watcher

-- `seen` is the configuration that Start or handleReload read last, `errors` what it came to.
pub record Program : Type 0 where
  pub config_mgr : ConfigManager
  pub routes : RouteManager
  pub watcher : Watcher
  pub seen : Config
  pub errors : List RouteError

-- Start reads the configuration; its goroutine then watches for reloads.
unfoldable pub start_routes : Program → Program
unfolding get_config
start_routes p =
    let cfg = get_config p.config_mgr in
    record p {
      routes = (start (record p.routes { config = some cfg })).0;
      watcher = Watcher.waiting;
      seen = cfg;
      errors = [];
    }

-- The two cases of the select of watchConfigReloads.
unfoldable pub take_signal : Program → Option Program
unfolding receive_signal
take_signal p = elim (receive_signal p.config_mgr) [
  | none ↦ none
  | some m ↦ some (record p { config_mgr = m; watcher = Watcher.signalled })
]

unfoldable pub context_done : Program → Program
context_done p = record p { watcher = Watcher.returned }

-- The call of handleReload, whose error is logged.
unfoldable pub reload_routes : (Map Route → Map Route) → World → Program → Program
unfolding get_config
reload_routes range w p =
    let cfg = get_config p.config_mgr in
    let (routes, errors) = handle_reload range w (record p.routes { config = some cfg }) in
    record p { routes = routes; watcher = Watcher.waiting; seen = cfg; errors = errors }

-- A step of the goroutines of listener `i`.
abbrev pub moved_listener : ℕ → Listener → Program → Program
moved_listener i l p = record p { routes = modify i (λ old. l) p.routes }

-- Both managers and the listeners' goroutines, in any interleaving.
pub data ProgramStep (lib : Libraries) (base : Str → Str) (range : Map Route → Map Route)
    (p : Program) : Program → Type 0 where
  configures :
      (m : ConfigManager)
      → Step lib base p.config_mgr m
      → ProgramStep lib base range p (record p { config_mgr = m })
  starts : p.watcher ≡ Watcher.unstarted → ProgramStep lib base range p (start_routes p)
  takes :
      (q : Program)
      → p.watcher ≡ Watcher.waiting
      → take_signal p ≡ some q
      → ProgramStep lib base range p q
  cancels : p.watcher ≡ Watcher.waiting → ProgramStep lib base range p (context_done p)
  reloads :
      (w : World)
      → p.watcher ≡ Watcher.signalled
      → ProgramStep lib base range p (reload_routes range w p)
  moves :
      (i : ℕ) (g h : Goroutines)
      → p.watcher ≢ Watcher.unstarted
      → p.routes.listeners i ≡ g.listener
      → Move g h
      → ProgramStep lib base range p (moved_listener i h.listener p)

pub data ProgramReach (lib : Libraries) (base : Str → Str) (range : Map Route → Map Route)
    (s : Program) : Program → Type 0 where
  here : ProgramReach lib base range s s
  next :
      {p q : Program}
      → ProgramReach lib base range s p
      → ProgramStep lib base range p q
      → ProgramReach lib base range s q
