-- ===== src/Proxy/IdleTracker/Cooldown.antt =====
-- When a route may trigger again, and what recording and registering do to its idle time.
use smaug.Prelude.{
  ◌≤◌, ℤ, pos, ◌≤ℤ◌, ◌<ℤ◌, Time, time_sub, max_int64, Str, str_eq, str_eq_iff, contains_iff, true,
  false, List, some, Option-cases, ◌≡◌, inl, inr, In, Distinct, arith, if◌then◌else◌,
}
use smaug.Prelude.Map.{lookup, lookup-insert}
use smaug.Proxy.IdleTracker.{
  RouteEntry, IdleTracker, compute_idle_time, idle_time, is_idle, register_route, record_activity,
  check_idle_routes,
}
use smaug.Proxy.IdleTracker.Checks.{is_due, triggered, check_idle_routes-routes}

module _ (t : IdleTracker) (id : Str) where
  -- Registering a route, new or known, changes the idle time of no route.
  pub idle_time-register_route :
      (timeout : ℤ) (j : Str) (now : Time)
      → idle_time (register_route t id timeout) j now ≡ idle_time t j now
  unfolding idle_time register_route
  idle_time-register_route timeout j now = elim (Option-cases (lookup id t.routes)) [
    | inl n ↦ ground (
      arith,
      str_eq_iff id j,
      lookup-insert id j (record { idle_timeout = timeout; last_seen = 0 }) t.routes,
    )
    | inr (e, f) ↦
        ground (
          arith,
          str_eq_iff id j,
          lookup-insert id j (record e { idle_timeout = timeout }) t.routes,
        )
  ]

  -- After activity at a time, that route has been idle since then and the others as before.
  pub idle_time-record_activity :
      (seen : Time) (j : Str) (now : Time)
      → idle_time (record_activity t id seen) j now
        ≡ (if str_eq id j then compute_idle_time seen now else idle_time t j now)
  unfolding idle_time record_activity
  idle_time-record_activity seen j now = elim (Option-cases (lookup id t.routes)) [
    | inl n ↦ ground (
      arith,
      str_eq_iff id j,
      lookup-insert id j (record { idle_timeout = pos 0; last_seen = seen }) t.routes,
    )
    | inr (e, f) ↦
        ground (arith, str_eq_iff id j, lookup-insert id j (record e { last_seen = seen }) t.routes)
  ]

  -- A registered route that was never seen is due at once, whatever its positive timeout.
  pub never_seen-is_due :
      (e : RouteEntry) (now : Time)
      → lookup id t.routes ≡ some e
      → e.last_seen ≡ 0
      → pos 1 ≤ℤ e.idle_timeout
      → e.idle_timeout ≤ℤ pos max_int64
      → is_due now t id ≡ true
  unfolding is_idle compute_idle_time
  never_seen-is_due e now f z p q = ground arith

  -- A route that is due stays due until it is seen: the idle time only grows.
  pub is_due-later :
      (now later : Time) → now ≤ later → is_due now t id ≡ true → is_due later t id ≡ true
  unfolding is_idle compute_idle_time time_sub
  is_due-later now later h due = elim (Option-cases (lookup id t.routes)) [
    | inl n ↦ ground arith
    | inr (e, f) ↦ ground arith
  ]

module _ (now later : Time) (order : List Str) (d : Distinct order) (t : IdleTracker)
    (id : Str) where
  -- A route that a round, which meets each route once at a time other than the zero time, triggers is
  -- not due again before its timeout has passed once more.
  pub cooldown :
      (e : RouteEntry)
      → 1 ≤ now
      → In id (triggered now order t)
      → lookup id t.routes ≡ some e
      → time_sub later now <ℤ e.idle_timeout
      → is_due later (check_idle_routes now order t) id ≡ false
  unfolding is_idle compute_idle_time
  cooldown e p fired f short =
      ground
        (arith, check_idle_routes-routes now order t d id, contains_iff id (triggered now order t))

  -- A due route that a round, which meets each route once, does not trigger since the channel is
  -- full is tried again: it is due at every later time.
  pub dropped_is_retried :
      ¬ In id (triggered now order t)
      → now ≤ later
      → is_due now t id ≡ true
      → is_due later (check_idle_routes now order t) id ≡ true
  dropped_is_retried dropped h due = ground (
    arith,
    check_idle_routes-routes now order t d id,
    contains_iff id (triggered now order t),
    is_due-later t id now later h due,
  )

-- Activity at a time other than the zero time puts the trigger of a known route off: it is due only
-- once its timeout has passed since.
pub active_not_due :
    (t : IdleTracker) (id : Str) (seen now : Time) (e : RouteEntry)
    → 1 ≤ seen
    → lookup id t.routes ≡ some e
    → time_sub now seen <ℤ e.idle_timeout
    → is_due now (record_activity t id seen) id ≡ false
unfolding record_activity is_idle compute_idle_time
active_not_due t id seen now e p f short =
    ground (arith, lookup-insert id id (record e { last_seen = seen }) t.routes, str_eq_iff id id)
