-- ===== src/Proxy/RouteManager/Unchanged.antt =====
-- A reload that changes no route (internal/proxy/route_manager.go).
use smaug.Prelude.{Str, true, [], some, ◌≡◌, arith}
use smaug.Prelude.Map.{Map, lookup}
use smaug.Config.Types.{Config, Route}
use smaug.Proxy.Reload.{IsRange, detect_changes}
use smaug.Proxy.Reload.Index.{index}
use smaug.Proxy.Reload.Same.{no_changes_iff}
use smaug.Proxy.RouteManager.Listeners.{RouteManager, World}
use smaug.Proxy.RouteManager.Changes.{routes_of, no_difference, handle_reload}

-- A reload of a configuration whose routes are those of the manager, key by key, leaves every
-- listener and its coordinator as they were made, whatever else the configuration changes: a server
-- with another timeout or machine ID, say, or with Wake-on-LAN switched on.
pub same_routes_skip :
    (range : Map Route → Map Route)
    → IsRange range
    → (w : World) (m : RouteManager) (cfg : Config)
    → ((k : Str) → lookup k (index (routes_of m)) ≡ lookup k (index cfg.routes))
    → handle_reload range w (record m { config = some cfg }) ≡ (record m { config = some cfg }, [])
unfolding handle_reload
same_routes_skip range r w m cfg same =
    let (added, removed, modified) = (no_changes_iff range r (routes_of m) cfg.routes).1 same in
    let skips : no_difference (detect_changes range (routes_of m) cfg.routes) ≡ true =
      ground arith in
    simp (handle_reload, skips)
