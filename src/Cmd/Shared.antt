-- ===== src/Cmd/Shared.antt =====
-- Two routes to one server: each has an idle timeout of its own (internal/proxy/idle_tracker.go), and
-- routeSleepSender (cmd/smaug/main.go) sends the server to sleep for either.
use smaug.Prelude.{Time, Str, str_eq_iff, true, Option-cases, some, ◌≡◌, ◌≢◌, inl, inr, arith, pos}
use smaug.Prelude.Map.{lookup, lookup-insert}
use smaug.Proxy.IdleTracker.{IdleTracker, record_activity}
use smaug.Proxy.IdleTracker.Checks.{is_due}
use smaug.Client.Sleep.{SleepConfig, SleepRequest, SleepReply, send_sleep}
use smaug.Health.Store.{InMemoryHealthStore, ServerHealthStatus, get}
use smaug.Cmd.{RouteSleepSender, Slept, sleep_route}
use smaug.Cmd.Targets.{sleep_route_iff}

-- A request of one route leaves the others as idle as they were.
is_due-record_activity :
    (t : IdleTracker) (id other : Str) (seen now : Time)
    → other ≢ id
    → is_due now (record_activity t id seen) other ≡ is_due now t other
unfolding record_activity
is_due-record_activity t id other seen now differs = elim (Option-cases (lookup id t.routes)) [
  | inl n ↦ ground (
    arith,
    str_eq_iff id other,
    lookup-insert id other (record { idle_timeout = pos 0; last_seen = seen }) t.routes,
  )
  | inr (e, f) ↦
      ground (
        arith,
        str_eq_iff id other,
        lookup-insert id other (record e { last_seen = seen }) t.routes,
      )
]

-- A healthy server that two routes share is sent to sleep for the one that is idle, also while a
-- request comes for the other.
active_server_sleeps :
    (exchange : SleepRequest → SleepReply) (s : RouteSleepSender) (store : InMemoryHealthStore)
    (t : IdleTracker) (idle active server_id : Str) (client : SleepConfig) (st : ServerHealthStatus)
    (now : Time)
    → idle ≢ active
    → lookup idle s.senders ≡ some client
    → lookup idle s.server_ids ≡ some server_id
    → lookup active s.server_ids ≡ some server_id
    → get store server_id ≡ some st
    → st.healthy ≡ true
    → is_due now t idle ≡ true
    → (is_due now (record_activity t active now) idle ≡ true)
      × (sleep_route exchange s (some store) idle ≡ Slept.sent (send_sleep exchange client))
active_server_sleeps exchange s store t idle active server_id client st now differs c i j up well
      due =
    let same = is_due-record_activity t active idle now now differs in
    elim (sleep_route_iff exchange s store idle server_id client c i) [
      | inl (sent, always) ↦ (rw same due, sent)
      | inr (offline, (down, known, sick)) ↦ absurd (ground arith)
    ]
