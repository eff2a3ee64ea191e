-- ===== src/Proxy/Answers/Statuses.antt =====
-- The status that a client of a route gets, in every case.
use smaug.Prelude.{ℕ, Str, str, true, false, Option, none, some, ◌≡◌, refl, ◌∙◌, arith, ◌≤◌}
use smaug.Config.Types.{Route}
use smaug.Proxy.IdleTracker.{IdleTracker}
use smaug.Proxy.Handler.{Target, Recorder, Served, new_proxy_handler, serve_route}
use smaug.Proxy.WakeCoordinator as Coordinator
use smaug.Proxy.WakeCoordinator.{WakeCoordinator, serve_http}
use smaug.Middleware.Response.{
  Script, Request, Response, Handler, serve, send_header, send_body, start_body, change_headers,
  is_informational, final_status, status_internal_server_error,
}
use smaug.Middleware.Logging.{IsPlain}
use smaug.Middleware.Recovery.{answered}
use smaug.Middleware.Chain.{http_error}
use smaug.Middleware.Answers.{route_middleware, route_middleware-serve, IsNew, with_id, identified}
use smaug.Proxy.Answers.{
  Arrival, invalid_target, backend_error, wake_failed, wrapped, wake_serve, route_script, director,
  serve_proxied, proxy_serve, listener_handler, status_bad_gateway, status_service_unavailable,
}

http_error-answered :
    (message : Str) (code : ℕ) (r : Response)
    → r.status ≡ none
    → 200 ≤ code
    → answered (serve (http_error message code) r) ≡ code
unfolding http_error serve send_header send_body start_body change_headers is_informational
http_error-answered message code r fresh final = ground arith

http_error-IsPlain :
    (message : Str) (code : ℕ) → 200 ≤ code → IsPlain false (http_error message code)
unfolding http_error
http_error-IsPlain message code final = (final, λ n e. tt)

pub identified-fresh : (id : Str) (r : Response) → IsNew r → (identified id r).status ≡ none
unfolding change_headers
identified-fresh id r fresh = ground arith

module _ (parse : Str → Option Target) (rewrite : Target → Request → Request)
    (transport : Request → Option Script) (trim_space : Str → Str)
    (split_host_port : Str → Option Str) (id : Str) where
  -- The backend's own status where there is one, 502 without one, and 500 after a panic.
  abbrev pub proxied_status : Option (IdleTracker × Served) → Arrival → Request → Response → ℕ
  proxied_status none a req r = status_internal_server_error
  proxied_status (some (t, Served.bad_gateway)) a req r = status_bad_gateway
  proxied_status (some (t, Served.proxied target)) a req r =
      elim (transport (director parse rewrite transport a target req)) [
        | none ↦ status_bad_gateway
        | some s ↦ answered (serve s r)
      ]

  abbrev pub woken_status : Option WakeCoordinator → Arrival → ℕ → ℕ
  woken_status none a n = n
  woken_status (some c) a n = elim (serve_http a.healthy a.wake) [
    | Coordinator.Response.forwarded ↦ n
    | Coordinator.Response.unavailable ↦ status_service_unavailable
  ]

  module _ (t : IdleTracker) (rec : Recorder) (route : Route)
      (plain : (out : Request) (s : Script) → transport out ≡ some s → IsPlain false s)
      (a : Arrival) (req : Request) where
    transported-IsPlain :
        (out : Option Script)
        → ((s : Script) → out ≡ some s → IsPlain false s)
        → IsPlain false (elim out [ none ↦ backend_error | some s ↦ s ])
    unfolding backend_error
    transported-IsPlain none p = http_error-IsPlain (str "Bad Gateway") 502 (omega arith)
    transported-IsPlain (some s) p = p s refl

    script-IsPlain :
        (o : Option (IdleTracker × Served))
        → IsPlain false (route_script (serve_proxied parse rewrite transport a req) o)
    unfolding serve_proxied invalid_target
    script-IsPlain none = tt
    script-IsPlain (some (u, Served.bad_gateway)) =
        http_error-IsPlain (str "Invalid target URL") 502 (omega arith)
    script-IsPlain (some (u, Served.proxied target)) =
        transported-IsPlain (transport (director parse rewrite transport a target req))
          (plain (director parse rewrite transport a target req))

    transported-status :
        (out : Option Script) (r : Response)
        → r.status ≡ none
        → answered (serve (elim out [ none ↦ backend_error | some s ↦ s ]) r)
          ≡ (elim out [ none ↦ status_bad_gateway | some s ↦ answered (serve s r) ])
    unfolding backend_error
    transported-status none r fresh =
        http_error-answered (str "Bad Gateway") 502 r fresh (omega arith)
    transported-status (some s) r fresh = refl

    script-status :
        (o : Option (IdleTracker × Served)) (r : Response)
        → r.status ≡ none
        → answered (serve (route_script (serve_proxied parse rewrite transport a req) o) r)
          ≡ proxied_status o a req r
    unfolding serve_proxied invalid_target serve
    script-status none r fresh = ground arith
    script-status (some (u, Served.bad_gateway)) r fresh =
        http_error-answered (str "Invalid target URL") 502 r fresh (omega arith)
    script-status (some (u, Served.proxied target)) r fresh =
        transported-status (transport (director parse rewrite transport a target req)) r fresh

  -- The same behind a coordinator.
  module _ (a : Arrival) (h : Handler) (req : Request) where
    chosen-IsPlain :
        (x : Coordinator.Response)
        → IsPlain false (h req)
        → IsPlain false (elim x [
          | Coordinator.Response.forwarded ↦ h req
          | Coordinator.Response.unavailable ↦ wake_failed
        ])
    unfolding wake_failed
    chosen-IsPlain Coordinator.Response.forwarded p = p
    chosen-IsPlain Coordinator.Response.unavailable p = http_error-IsPlain _ 503 (omega arith)

    pub wrapped-IsPlain :
        (c : Option WakeCoordinator) → IsPlain false (h req) → IsPlain false (wrapped c a h req)
    unfolding wrapped wake_serve
    wrapped-IsPlain none p = p
    wrapped-IsPlain (some c) p = chosen-IsPlain (serve_http a.healthy a.wake) p

    chosen-status :
        (x : Coordinator.Response) (r : Response) (n : ℕ)
        → r.status ≡ none
        → answered (serve (h req) r) ≡ n
        → answered (
            serve
              (elim x [
                | Coordinator.Response.forwarded ↦ h req
                | Coordinator.Response.unavailable ↦ wake_failed
              ])
              r)
          ≡ (elim x [
            | Coordinator.Response.forwarded ↦ n
            | Coordinator.Response.unavailable ↦ status_service_unavailable
          ])
    unfolding wake_failed
    chosen-status Coordinator.Response.forwarded r n fresh e = e
    chosen-status Coordinator.Response.unavailable r n fresh e =
        http_error-answered _ 503 r fresh (omega arith)

    pub wrapped-status :
        (c : Option WakeCoordinator) (r : Response) (n : ℕ)
        → r.status ≡ none
        → answered (serve (h req) r) ≡ n
        → answered (serve (wrapped c a h req) r) ≡ woken_status c a n
    unfolding wrapped wake_serve
    wrapped-status none r n fresh e = e
    wrapped-status (some c) r n fresh e = chosen-status (serve_http a.healthy a.wake) r n fresh e

  -- Every request of a route is answered, provided that no backend's response has an informational
  -- header or an early flush: with 503 if the route has a coordinator, the server is not healthy and
  -- the wake fails; else with 500 if the recorder panics, with 502 if the route's upstream is no
  -- target or the backend gives no response, and with the backend's answer in all other cases.
  pub listener_handler-status :
      (closer : Option WakeCoordinator) (rec : Recorder) (route : Route) (t : IdleTracker)
      → ((out : Request) (s : Script) → transport out ≡ some s → IsPlain false s)
      → (a : Arrival) (req : Request) (r : Response) → IsNew r
      → ((serve
            (listener_handler parse rewrite transport
              (route_middleware trim_space split_host_port id)
              closer
              rec
              route
              t
              a
              req)
            r).2
          ≡ true)
        × (final_status
              (serve
                (listener_handler parse rewrite transport
                  (route_middleware trim_space split_host_port id)
                  closer
                  rec
                  route
                  t
                  a
                  req)
                r).0
            ≡ woken_status closer a (
                proxied_status
                  (serve_route rec (new_proxy_handler parse route.upstream) route.name a.now t)
                  a
                  (with_id id req)
                  (identified id r)))
  unfolding listener_handler proxy_serve
  listener_handler-status closer rec route t plain a req r fresh =
      let h = proxy_serve parse rewrite transport rec route t a in
      let found = serve_route rec (new_proxy_handler parse route.upstream) route.name a.now t in
      let req' = with_id id req in
      let r' = identified id r in
      let unset = identified-fresh id r fresh in
      let is_plain =
        wrapped-IsPlain a h req' closer (script-IsPlain t rec route plain a req' found) in
      let status =
        wrapped-status a h req' closer r' _ unset
          (script-status t rec route plain a req' found r' unset) in
      let (ends, answer) =
        route_middleware-serve trim_space split_host_port id (wrapped closer a h) req r is_plain
          fresh in
      (ends, answer ∙ status)
