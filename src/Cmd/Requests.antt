-- ===== src/Cmd/Requests.antt =====
-- What a client of a route is answered, from the middlewares down to the activity recorder.
use smaug.Prelude.{Str, false, Option, none, ◌≡◌, In, ◌∙◌, arith}
use smaug.Config.Types.{Config, Route}
use smaug.Proxy.IdleTracker.{IdleTracker}
use smaug.Proxy.Handler.{Target, new_proxy_handler}
use smaug.Proxy.WakeCoordinator.{WakeCoordinator}
use smaug.Proxy.Answers.{Arrival, listener_handler, proxy_serve, wrapped}
use smaug.Proxy.Answers.Statuses.{woken_status, wrapped-IsPlain, wrapped-status, identified-fresh}
use smaug.Middleware.Logging.{IsPlain}
use smaug.Middleware.Recovery.{answered}
use smaug.Middleware.Response.{
  Script, Request, Response, serve, final_status, status_internal_server_error,
}
use smaug.Middleware.Answers.{route_middleware, route_middleware-serve, IsNew, with_id, identified}
use smaug.Cmd.{sleeping_server, init_recorder}
use smaug.Cmd.Recording.{no_sleep-panics}

module _ (trim_space : Str → Str) (split_host_port : Str → Option Str) (id : Str)
    (parse : Str → Option Target) (rewrite : Target → Request → Request)
    (transport : Request → Option Script) (cfg : Config) where
  -- If no route has a server with Sleep-on-LAN enabled, every request of every route is answered
  -- with 500, whatever its backend would answer, unless the route has a coordinator whose wake
  -- fails, and then with 503.
  pub no_sleep-answers_500 :
      ((route : Route) → In route cfg.routes → sleeping_server cfg route ≡ none)
      → (closer : Option WakeCoordinator) (route : Route) (t : IdleTracker)
      → (a : Arrival) (req : Request) (r : Response) → IsNew r
      → final_status
          (serve
            (listener_handler parse rewrite transport
              (route_middleware trim_space split_host_port id)
              closer
              (init_recorder cfg)
              route
              t
              a
              req)
            r).0
        ≡ woken_status parse rewrite transport trim_space split_host_port id closer a
            status_internal_server_error
  unfolding listener_handler
  no_sleep-answers_500 awake closer route t a req r fresh =
      let h = proxy_serve parse rewrite transport (init_recorder cfg) route t a in
      let panics : h (with_id id req) ≡ Script.panics =
        unfold proxy_serve in
        ground (
          arith,
          no_sleep-panics cfg awake (new_proxy_handler parse route.upstream) route.name a.now t,
        ) in
      let script : IsPlain false (h (with_id id req)) = rw panics tt in
      let alone : answered (serve (h (with_id id req)) (identified id r))
          ≡ status_internal_server_error =
        rw panics (unfold serve in ground (arith, identified-fresh id r fresh)) in
      let is_plain =
        wrapped-IsPlain parse rewrite transport trim_space split_host_port id a h (with_id id req)
          closer script in
      let status =
        wrapped-status parse rewrite transport trim_space split_host_port id a h (with_id id req)
          closer (identified id r) status_internal_server_error (identified-fresh id r fresh)
          alone in
      let (ends, answer) =
        route_middleware-serve trim_space split_host_port id (wrapped closer a h) req r is_plain
          fresh in
      answer ∙ status
