-- ===== src/Tests/Idle.antt =====
-- An idle tracker over one round of checks.
use smaug.Prelude.{
  ℕ, zero, suc, pos, ◌<ℤ◌, time_sub, Str, str, str_eq, true, false, List, [], ◌∷◌, ◌++◌, some, ◌≡◌,
  refl, inl, Distinct, keep, arith,
}
use smaug.Prelude.Map.{lookup}
use smaug.Proxy.IdleTracker as Tracker
use smaug.Proxy.IdleTracker.{
  IdleTracker, RouteEntry, is_idle, compute_idle_time, check_idle_routes, record_activity,
  sleep_trigger_buf_size,
}
use smaug.Proxy.IdleTracker.Checks.{is_due, triggered, check_idle_routes-sleep_ch}
use smaug.Proxy.IdleTracker.Cooldown.{cooldown, dropped_is_retried}

abbrev entry : RouteEntry
entry = record { idle_timeout = pos 100; last_seen = 50 }

abbrev pub tracker : IdleTracker
tracker = record {
  check_interval = pos 60;
  metrics = true;
  routes = (str "web", entry) ∷ [];
  sleep_ch = [];
  running = true;
  checker = true;
  lingering = 0;
  recorded = [];
}

abbrev waiting : ℕ → List Str
waiting zero = []
waiting (suc n) = str "api" ∷ waiting n

-- The same tracker with a full channel.
abbrev full : IdleTracker
full = record tracker { sleep_ch = waiting sleep_trigger_buf_size }

abbrev order : List Str
order = str "web" ∷ []

order-Distinct : Distinct order
order-Distinct = ((λ h. h), tt)

check_idle_routes-sleep_ch_example :
    (check_idle_routes 200 order tracker).sleep_ch ≡ [] ++ triggered 200 order tracker
check_idle_routes-sleep_ch_example = check_idle_routes-sleep_ch 200 order tracker order-Distinct

fires : triggered 200 order tracker ≡ str "web" ∷ []
unfolding keep lookup str_eq is_idle compute_idle_time time_sub
fires = refl

web-entry : lookup (str "web") tracker.routes ≡ some entry
unfolding lookup str_eq
web-entry = refl

short : time_sub 250 200 <ℤ entry.idle_timeout
unfolding time_sub
short = omega arith

cooldown_example : is_due 250 (check_idle_routes 200 order tracker) (str "web") ≡ false
cooldown_example =
    cooldown 200 250 order order-Distinct tracker (str "web") entry (omega arith)
      (rw fires (inl refl)) web-entry short

full-due : is_due 200 full (str "web") ≡ true
unfolding lookup str_eq is_idle compute_idle_time time_sub
full-due = refl

dropped_is_retried_example : is_due 250 (check_idle_routes 200 order full) (str "web") ≡ true
dropped_is_retried_example =
    dropped_is_retried 200 250 order order-Distinct full (str "web") (λ i. i) (omega arith) full-due

abbrev new_tracker : IdleTracker
new_tracker = record {
  check_interval = pos 60;
  metrics = false;
  routes = [];
  sleep_ch = [];
  running = false;
  checker = false;
  lingering = 0;
  recorded = [];
}
