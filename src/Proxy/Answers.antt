-- ===== src/Proxy/Answers.antt =====
-- What the handler of a route's listener does with a request: the proxy handler
-- (internal/proxy/proxy.go), the coordinator before it (internal/proxy/wake_coordinator.go) and the
-- middlewares that createListener (internal/proxy/route_manager.go) puts around both. What
-- httputil.ReverseProxy does is an argument.
pub mod Statuses
use smaug.Prelude.{ℕ, Str, str, Bool, Option, none, some, Time}
use smaug.Config.Types.{Route}
use smaug.Proxy.IdleTracker.{IdleTracker}
use smaug.Proxy.Handler.{
  Target, Recorder, Served, new_proxy_handler, serve_route, add_forwarded_headers,
}
use smaug.Proxy.WakeCoordinator as Coordinator
use smaug.Proxy.WakeCoordinator.{WakeCoordinator, WakeError, serve_http}
use smaug.Middleware.Response.{Script, Request, Handler}
use smaug.Middleware.Chain.{Middleware, http_error}

abbrev pub status_bad_gateway : ℕ
status_bad_gateway = 502

abbrev pub status_service_unavailable : ℕ
status_service_unavailable = 503

-- The error function of each test of the target URL.
unfoldable pub invalid_target : Script
invalid_target = http_error (str "Invalid target URL") status_bad_gateway

-- proxy.ErrorHandler
unfoldable pub backend_error : Script
backend_error = http_error (str "Bad Gateway") status_bad_gateway

-- How ServeHTTP of the coordinator ends where the wake fails.
unfoldable pub wake_failed : Script
wake_failed =
    http_error (str "Service Unavailable: server did not become healthy in time")
      status_service_unavailable

-- A call of RecordActivity panics, or the handler goes on with what `behind` does.
abbrev pub route_script : (Served → Script) → Option (IdleTracker × Served) → Script
route_script behind none = Script.panics
route_script behind (some (t, s)) = behind s

-- A request as it comes in: over TLS or not, with the host that the client asked for, at a time, and
-- what the coordinator finds: whether the store has the server healthy at first, and what ensureWake
-- returns.
pub record Arrival : Type 0 where
  pub tls : Bool
  pub host : Str
  pub now : Time
  pub healthy : Bool
  pub wake : Option WakeError

-- ServeHTTP of the coordinator, before its downstream handler.
unfoldable pub wake_serve : Arrival → Middleware
wake_serve a downstream req = elim (serve_http a.healthy a.wake) [
  | Coordinator.Response.forwarded ↦ downstream req
  | Coordinator.Response.unavailable ↦ wake_failed
]

-- wrapWithWakeCoordinator returns the coordinator or the plain handler.
unfoldable pub wrapped : Option WakeCoordinator → Arrival → Middleware
unfolding wake_serve
wrapped none a h = h
wrapped (some c) a h = wake_serve a h

-- `rewrite` is the Director of NewSingleHostReverseProxy; `transport` is what the reverse proxy
-- then does with the response of the backend, or `none` where it calls its ErrorHandler.
module _ (parse : Str → Option Target) (rewrite : Target → Request → Request)
    (transport : Request → Option Script) where
  unfoldable pub director : Arrival → Target → Request → Request
  director a target req =
      let out = rewrite target req in
      record out { header = add_forwarded_headers a.tls a.host out.header }

  unfoldable pub serve_proxied : Arrival → Request → Served → Script
  unfolding director
  serve_proxied a req Served.bad_gateway = invalid_target
  serve_proxied a req (Served.proxied target) = elim (transport (director a target req)) [
    | none ↦ backend_error
    | some s ↦ s
  ]

  -- ServeHTTP of what NewProxyHandler returns for the upstream of a route.
  unfoldable pub proxy_serve : Recorder → Route → IdleTracker → Arrival → Handler
  unfolding serve_proxied
  proxy_serve rec route t a req =
      route_script (serve_proxied a req)
        (serve_route rec (new_proxy_handler parse route.upstream) route.name a.now t)

  -- The handler of the server that createListener makes.
  unfoldable pub listener_handler :
      Middleware → Option WakeCoordinator → Recorder → Route → IdleTracker → Arrival → Handler
  unfolding proxy_serve wrapped
  listener_handler middleware closer rec route t a =
      middleware (wrapped closer a (proxy_serve rec route t a))
