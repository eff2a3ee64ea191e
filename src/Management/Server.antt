-- ===== src/Management/Server.antt =====
-- internal/management/health/server.go: the life of the server as the steps of its callers and of
-- the goroutines that Start leaves behind, which are counted. What ListenAndServe and Shutdown come
-- to is an argument.
pub mod Starting
use smaug.Prelude.{ℕ, ◌+◌, ◌-◌, ◌<◌, Str, Bool, true, false, Option, none, some, ◌≡◌, if◌then◌else◌}

pub data ServerError : Type 0 where
  already_running not_running shutdown_timeout shutdown_failed : ServerError
  listen_failed : Str → ServerError

-- `started` tells whether the channel is closed. The numbers count the callers of Start that wait,
-- the goroutines that sleep for 100 ms, those before and in ListenAndServe, and those that wait for
-- the context and, of these, in Shutdown.
pub record Server : Type 0 where
  pub running : Bool
  pub started : Bool
  pub start_err : Option ServerError
  pub callers : ℕ
  pub sleepers : ℕ
  pub launching : ℕ
  pub listening : ℕ
  pub watchers : ℕ
  pub shutting : ℕ

abbrev pub new_server : Server
new_server = record {
  running = false;
  started = false;
  start_err = none;
  callers = 0;
  sleepers = 0;
  launching = 0;
  listening = 0;
  watchers = 0;
  shutting = 0;
}

-- Start up to its wait.
unfoldable pub start_begins : Server → Server × Option ServerError
start_begins s = if s.running then (s, some ServerError.already_running) else (
  record s {
    callers = s.callers + 1;
    sleepers = s.sleepers + 1;
    launching = s.launching + 1;
    watchers = s.watchers + 1;
  },
  none,
)

-- The end of a Start that waits for `started`: what it returns; `none` while it has to wait.
unfoldable pub start_returns : Server → Option (Server × Option ServerError)
start_returns s =
    if s.started then some (record s { callers = s.callers - 1 }, s.start_err) else none

-- The goroutine that looks after 100 ms, once.
unfoldable pub sleeper_wakes : Server → Server
sleeper_wakes s =
    let s' = record s { sleepers = s.sleepers - 1 } in
    if s.running then record s' { started = true } else s'

-- The goroutine of the server: before ListenAndServe, and after it with its error; `none` is
-- ErrServerClosed.
unfoldable pub listen_begins : Server → Server
listen_begins s = record s {
  running = true;
  launching = s.launching - 1;
  listening = s.listening + 1;
}

unfoldable pub listen_ends : Option Str → Server → Server
listen_ends none s = record s { listening = s.listening - 1 }
listen_ends (some e) s = record s {
  listening = s.listening - 1;
  running = false;
  start_err = some (ServerError.listen_failed e);
  started = true;
}

-- The goroutine that waits for the context: once it is done it looks whether the server runs, calls
-- Shutdown if so, and writes `running` after Shutdown has returned, whose error is only logged.
unfoldable pub watcher_looks : Server → Server
watcher_looks s =
    let s' = record s { watchers = s.watchers - 1 } in
    if s.running then record s' { shutting = s.shutting + 1 } else s'

unfoldable pub watcher_ends : Server → Server
watcher_ends s = record s { shutting = s.shutting - 1; running = false }

-- How a shutdown goes.
pub data Shutdown : Type 0 where
  shut deadline_exceeded failed : Shutdown

unfoldable pub stop : Shutdown → Server → Server × Option ServerError
stop how s =
    if s.running
    then elim how [
      | Shutdown.shut ↦ (record s { running = false }, none)
      | Shutdown.deadline_exceeded ↦ (s, some ServerError.shutdown_timeout)
      | Shutdown.failed ↦ (s, some ServerError.shutdown_failed)
    ]
    else (s, some ServerError.not_running)

-- All but a new call of Start, in any interleaving.
pub data Step (s : Server) : Server → Type 0 where
  returning : (t : Server) (e : Option ServerError) → start_returns s ≡ some (t, e) → Step s t
  waking : 0 < s.sleepers → Step s (sleeper_wakes s)
  launching : 0 < s.launching → Step s (listen_begins s)
  listened : 0 < s.listening → (e : Option Str) → Step s (listen_ends e s)
  cancelled : 0 < s.watchers → Step s (watcher_looks s)
  shut_down : 0 < s.shutting → Step s (watcher_ends s)
  stopping : (how : Shutdown) → Step s (stop how s).0

pub data Reach (s : Server) : Server → Type 0 where
  here : Reach s s
  next : {t u : Server} → Reach s t → Step t u → Reach s u
  restarted : {t : Server} → Reach s t → Reach s (start_begins t).0

-- The same without a new call of Start.
pub data Goes (s : Server) : Server → Type 0 where
  here : Goes s s
  next : {t u : Server} → Goes s t → Step t u → Goes s u
