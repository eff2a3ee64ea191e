-- ===== src/Tests/Http.antt =====
-- Requests through the middlewares, to the routes and to the endpoints for probes.
use smaug.Prelude.{
  false, ℕ, Str, str, true, [], Option, none, some, ◌≡◌, ◌≢◌, ◌↔◌, refl, arith, ◌≤◌, ◌<◌,
}
use smaug.Middleware.Response.{Script, Request, Response, Handler, serve, final_status, status_ok}
use smaug.Middleware.Recovery.{answered}
use smaug.Middleware.Answers.{with_id, identified, route_middleware, route_middleware-serve}
use smaug.Proxy.RouteManager.Status.{get_active_route_count}
use smaug.Management.Handlers.{Answer, VersionInfo, health_mux, service_unavailable}
use smaug.Management.Handlers.Readiness.{HasRunning, ready_iff}
use smaug.Management.Server.{
  Server, ServerError, Step, Reach, new_server, start_begins, start_returns, listen_begins,
  listen_ends, watcher_looks, watcher_ends,
}
use smaug.Management.Server.Starting.{failure_is_kept}
use smaug.Tests.Data.{idle_manager}

abbrev pub unchanged : Str → Str
unchanged s = s

abbrev pub no_port : Str → Option Str
no_port s = none

abbrev pub get_ready : Request
get_ready = record {
  method = str "GET";
  path = str "/ready";
  header = [];
  remote_addr = str "10.0.0.1";
  request_id = none;
}

abbrev pub fresh : Response
fresh = record {
  headers = [];
  status = none;
  informational = [];
  body = [];
  head = false;
  room = 1000;
  written = 0;
}

-- A handler that writes and then panics, and one that sends an early hint.
abbrev breaks_off : Handler
breaks_off r = Script.write_header 404 (Script.write (str "no") (λ n e. Script.panics))

abbrev not_found : Script
not_found = Script.write_header 404 (Script.write (str "no") (λ n e. Script.returns))

abbrev hints : Handler
hints r = Script.write_header 103 not_found

at_least_200 : 200 ≤ 404
at_least_200 = omega arith

route_middleware-serve_example :
    ((serve (route_middleware unchanged no_port (str "id") breaks_off get_ready) fresh).2 ≡ true)
    × (final_status
          (serve (route_middleware unchanged no_port (str "id") breaks_off get_ready) fresh).0
        ≡ answered
            (serve (breaks_off (with_id (str "id") get_ready)) (identified (str "id") fresh)))
route_middleware-serve_example =
    route_middleware-serve unchanged no_port (str "id") breaks_off get_ready fresh
      (at_least_200, λ n e. tt) (refl, refl, refl)

abbrev encode : Answer → Str
encode a = str "{}"

abbrev info : VersionInfo
info = record { version = str "1"; build_time = str "t"; git_commit = str "c" }

abbrev ready_status : ℕ
ready_status =
    final_status
      (serve (health_mux encode (get_active_route_count idle_manager) info (str "1s") get_ready)
        fresh).0

ready_iff_example :
    ((ready_status ≡ status_ok) ↔ HasRunning idle_manager)
    × ((ready_status ≡ service_unavailable) ↔ (¬ HasRunning idle_manager))
ready_iff_example = ready_iff encode idle_manager info (str "1s") get_ready fresh refl refl refl

-- The port is taken, and Start is called again.
abbrev busy : ServerError
busy = ServerError.listen_failed (str "busy")

abbrev failed_server : Server
failed_server = listen_ends (some (str "busy")) (listen_begins (start_begins new_server).0)

abbrev restarted : Server
restarted = listen_begins (start_begins failed_server).0

restarted-launches : 0 < (start_begins failed_server).0.launching
unfolding start_begins listen_begins listen_ends
restarted-launches = omega arith

restarted-returns : start_returns restarted ≡ some (record restarted { callers = 1 }, some busy)
unfolding start_begins listen_begins listen_ends start_returns
restarted-returns = refl

failure_is_kept_example : some busy ≢ none
failure_is_kept_example =
    failure_is_kept (listen_begins (start_begins new_server).0) restarted
      (record restarted { callers = 1 }) (str "busy") (some busy)
      (Reach.next (Reach.restarted Reach.here) (Step.launching restarted-launches))
      restarted-returns

-- The look comes after the end of Shutdown.
abbrev cancelled_early : Server
cancelled_early =
    watcher_ends (listen_ends none (watcher_looks (listen_begins (start_begins new_server).0)))
