-- ===== src/Management/Metrics.antt =====
-- internal/management/metrics/server.go. Its life is, statement by statement, that of the server in
-- internal/management/health/server.go; it serves one endpoint, with the handler of the Prometheus
-- library.
use smaug.Prelude.{
  ℤ, Str, str, str_eq, Bool, false, Option, none, some, ◌≡◌, refl, if◌then◌else◌, arith,
}
use smaug.Middleware.Response.{Handler}
use smaug.Middleware.Chain.{http_error}
use smaug.Management.Server.{Server, ServerError, Shutdown, Goes}
use smaug.Management.Server as Life
use smaug.Management.Server.Starting.{early_cancel_hangs}

pub record MetricsServer : Type 0 where
  pub port : ℤ
  pub registry : Handler  -- what the registry's Handler returns
  pub life : Server

unfoldable pub new_metrics_server : ℤ → Handler → MetricsServer
new_metrics_server port registry = record {
  port = port;
  registry = registry;
  life = Life.new_server;
}

-- The mux of Start.
unfoldable metrics_mux : MetricsServer → Handler
metrics_mux s r =
    if str_eq r.path (str "/metrics")
    then s.registry r
    else http_error (str "404 page not found") 404

-- Start up to its wait, and its end, once the channel is closed.
unfoldable pub start_begins : MetricsServer → MetricsServer × Option ServerError
start_begins s = let (life, e) = Life.start_begins s.life in (record s { life = life }, e)

unfoldable start_returns : MetricsServer → Option (MetricsServer × Option ServerError)
start_returns s = elim (Life.start_returns s.life) [
  | none ↦ none
  | some (life, e) ↦ some (record s { life = life }, e)
]

-- The goroutines of Start.
unfoldable sleeper_wakes : MetricsServer → MetricsServer
sleeper_wakes s = record s { life = Life.sleeper_wakes s.life }

unfoldable listen_begins : MetricsServer → MetricsServer
listen_begins s = record s { life = Life.listen_begins s.life }

unfoldable listen_ends : Option Str → MetricsServer → MetricsServer
listen_ends e s = record s { life = Life.listen_ends e s.life }

unfoldable watcher_looks : MetricsServer → MetricsServer
watcher_looks s = record s { life = Life.watcher_looks s.life }

unfoldable watcher_ends : MetricsServer → MetricsServer
watcher_ends s = record s { life = Life.watcher_ends s.life }

unfoldable is_running : MetricsServer → Bool
is_running s = s.life.running

unfoldable stop : Shutdown → MetricsServer → MetricsServer × Option ServerError
stop how s = let (life, e) = Life.stop how s.life in (record s { life = life }, e)

-- A server that Stop has shut down is not running, and one whose shutdown fails still is.
stop-is_running :
    (how : Shutdown) (s : MetricsServer)
    → is_running (stop how s).0 ≡ (elim (stop how s).1 [ none ↦ false | some e ↦ is_running s ])
unfolding stop is_running Life.stop
stop-is_running Shutdown.shut s = ground arith
stop-is_running Shutdown.deadline_exceeded s = ground arith
stop-is_running Shutdown.failed s = ground arith

-- A Start of a new server hangs here too if its context is done early, as in
-- Management/Server/Starting.antt.
early_metrics_cancel_hangs :
    (port : ℤ) (registry : Handler) (t : MetricsServer)
    → Goes
        (watcher_ends (
          listen_ends none (
            watcher_looks
              (listen_begins (start_begins (new_metrics_server port registry)).0)))).life
        t.life
    → start_returns t ≡ none
unfolding start_begins listen_begins watcher_looks watcher_ends listen_ends start_returns
    new_metrics_server
early_metrics_cancel_hangs port registry t g =
    let hangs = early_cancel_hangs Life.new_server t.life refl refl (refl, refl) g in
    rw (start_returns, hangs) refl
