-- ===== src/Proxy/IdleTracker/Lifecycle.antt =====
-- The tracker through its whole life: starting, stopping, rounds of the checker, requests, and a
-- consumer that takes triggers.
use smaug.Prelude.{
  ◌≤◌, ◌<◌, ℤ, Time, Str, Bool, true, false, List, ◌∷◌, none, ◌≡◌, ◌⊎◌, ◌↔◌, length, Distinct,
  arith,
}
use smaug.Prelude.Map.{keys}
use smaug.Proxy.IdleTracker.{
  IdleTracker, sleep_trigger_buf_size, set_metrics, register_route, record_activity, start, stop,
  context_done, cancelled_ends, tick,
}

-- The channel is within its capacity, a checker that Stop has not cancelled lives only in a running
-- tracker, and every route has one entry.
pub record IsSound (t : IdleTracker) : Type 0 where
  pub within : length t.sleep_ch ≤ sleep_trigger_buf_size
  pub owned : (t.checker ≡ false) ⊎ (t.running ≡ true)
  pub distinct : Distinct (keys t.routes)

-- What can happen to a tracker.
pub data Step (t : IdleTracker) : IdleTracker → Type 0 where
  sets_metrics : (b : Bool) → Step t (set_metrics t b)
  registers : (id : Str) (timeout : ℤ) → Step t (register_route t id timeout)
  records : (id : Str) (now : Time) → Step t (record_activity t id now)
  starts : Step t (start t).0
  stops : Step t (stop t).0
  cancelled : Step t (context_done t)
  ended : 0 < t.lingering → Step t (cancelled_ends t)
  ticks : (now : Time) (order : List Str) → Step t (tick now order t)
  taken :
      (id : Str) (rest : List Str) → t.sleep_ch ≡ id ∷ rest → Step t (record t { sleep_ch = rest })

pub data Reach (s : IdleTracker) : IdleTracker → Type 0 where
  here : Reach s s
  next : {t u : IdleTracker} → Reach s t → Step t u → Reach s u

-- Start succeeds exactly on a tracker that is not running and stop exactly on a running one; after
-- them it is running, or it is not, and the routes and the waiting triggers are as they were.
pub start-stop :
    (t : IdleTracker)
    → (((start t).1 ≡ none) ↔ (t.running ≡ false))
      × (((stop t).1 ≡ none) ↔ (t.running ≡ true))
      × ((start t).0.running ≡ true)
      × ((stop t).0.running ≡ false)
      × ((start t).0.routes ≡ t.routes)
      × ((stop t).0.routes ≡ t.routes)
      × ((start t).0.sleep_ch ≡ t.sleep_ch)
      × ((stop t).0.sleep_ch ≡ t.sleep_ch)
unfolding start stop
start-stop t = ground arith
