-- ===== src/Config/Manager.antt =====
-- internal/config/manager.go. What loading the file comes to is an argument, and so is fsnotify:
-- the events that `watch` takes. A callback of the debouncing timer runs on its own, so its body
-- is cut at the calls that others can come between.
pub mod Machine
pub mod Served
pub mod Signals
pub mod Debounce
use smaug.Prelude.{
  ℕ, ◌+◌, leb, Time, Str, str_eq, Bool, true, false, not, ◌&&◌, ◌||◌, List, [], ◌∷◌, ◌++◌, Option,
  none, some, if◌then◌else◌, set, get_elem?,
}
use smaug.Config.Types.{Config}
use smaug.Config.Loader.{LoadError, Loaded}

-- How far the goroutine of a callback has come in `reload`.
pub data Reload : Type 0 where
  called loading : Reload
  parsed : Config → Reload
  stored ended : Reload

-- `reload_ch` and `done` tell whether a signal waits in the channel of one place and whether the
-- other channel is closed; `timer` is the deadline of an armed timer; `watching` tells whether the
-- goroutine of `watch` runs; `recorded` is what the registry, if there is one, is told.
pub record ConfigManager : Type 0 where
  pub config : Config
  pub path : Str
  pub reload_ch : Bool
  pub done : Bool
  pub timer : Option Time
  pub watching : Bool
  pub watcher_open : Bool
  pub metrics : Bool
  pub recorded : List Bool
  pub reloads : List Reload

pub data NewManager : Type 0 where
  made : ConfigManager → NewManager
  load_failed : LoadError → NewManager
  watcher_failed add_failed : NewManager

-- NewManager, given what Load, NewWatcher and Add come to.
unfoldable pub new_manager : Str → Loaded → Bool → Bool → NewManager
new_manager path (Loaded.refused e) watcher_ok add_ok = NewManager.load_failed e
new_manager path (Loaded.loaded c) watcher_ok add_ok =
    if not watcher_ok
    then NewManager.watcher_failed
    else if not add_ok
    then NewManager.add_failed
    else NewManager.made (record {
      config = c;
      path = path;
      reload_ch = false;
      done = false;
      timer = none;
      watching = true;
      watcher_open = true;
      metrics = false;
      recorded = [];
      reloads = [];
    })

unfoldable pub set_metrics : Bool → ConfigManager → ConfigManager
set_metrics reg m = record m { metrics = reg }

unfoldable pub get_config : ConfigManager → Config
get_config m = m.config

-- A receive from the channel of ReloadSignal; it waits while there is no signal.
unfoldable pub receive_signal : ConfigManager → Option ConfigManager
receive_signal m = if m.reload_ch then some (record m { reload_ch = false }) else none

-- An event of the watcher: the file, and whether it is a write or a create.
pub record Event : Type 0 where
  pub name : Str
  pub is_write : Bool
  pub is_create : Bool

-- What the select of `watch` takes; a channel that is closed gives no event.
pub data Watched : Type 0 where
  done_closed : Watched
  event : Option Event → Watched
  error : Bool → Watched

abbrev pub debounce_duration : Time
debounce_duration = 1_000_000_000

-- The deferred Stop of the timer, and the end of the goroutine.
unfoldable pub watch_returns : ConfigManager → ConfigManager
watch_returns m = record m { watching = false; timer = none }

unfoldable pub is_relevant : (Str → Str) → Str → Event → Bool
is_relevant base path e = str_eq (base e.name) (base path) && (e.is_write || e.is_create)

-- One turn of the loop of `watch`; `base` is filepath.Base. An old timer is stopped as the new one
-- takes its place.
unfoldable pub watch : (Str → Str) → Time → Watched → ConfigManager → ConfigManager
unfolding watch_returns is_relevant
watch base now Watched.done_closed m = watch_returns m
watch base now (Watched.event none) m = watch_returns m
watch base now (Watched.event (some e)) m =
    if is_relevant base m.path e then record m { timer = some (now + debounce_duration) } else m
watch base now (Watched.error ok) m = if ok then m else watch_returns m

-- An armed timer whose deadline has passed starts its callback.
unfoldable pub fire : Time → ConfigManager → ConfigManager
fire now m = elim m.timer [
  | none ↦ m
  | some deadline ↦
      if leb deadline now
      then record m { timer = none; reloads = m.reloads ++ Reload.called ∷ [] }
      else m
]

unfoldable pub record_config_reload : Bool → ConfigManager → ConfigManager
record_config_reload ok m = if m.metrics then record m { recorded = m.recorded ++ ok ∷ [] } else m

-- `reload` from one call to the next: the check of `done`, Load, the store, and the send that never
-- waits. `l` is what Load comes to.
unfoldable pub reload : Loaded → Reload → ConfigManager → ConfigManager × Reload
unfolding record_config_reload
reload l Reload.called m = (m, if m.done then Reload.ended else Reload.loading)
reload (Loaded.refused e) Reload.loading m = (record_config_reload false m, Reload.ended)
reload (Loaded.loaded c) Reload.loading m = (m, Reload.parsed c)
reload l (Reload.parsed c) m = (record m { config = c }, Reload.stored)
reload l Reload.stored m = (record_config_reload true (record m { reload_ch = true }), Reload.ended)
reload l Reload.ended m = (m, Reload.ended)

-- The goroutine of a number goes one call further.
unfoldable pub advance : ℕ → Loaded → ConfigManager → ConfigManager
advance i l m = elim (get_elem? m.reloads i) [
  | none ↦ m
  | some r ↦ let (m', r') = reload l r m in record m' { reloads = set m.reloads i r' }
]

-- Stop up to its wait for the goroutine of `watch`, and behind it.
unfoldable pub close_done : ConfigManager → ConfigManager
close_done m = record m { done = true }

unfoldable pub close_watcher : ConfigManager → ConfigManager
close_watcher m = record m { watcher_open = false }

-- Stop as a whole, with the error of closing the watcher; a second call finds its work done.
unfoldable pub stop : Option Str → ConfigManager → ConfigManager × Option Str
unfolding close_done close_watcher
stop close_err m =
    if m.done then (m, none) else (close_watcher (watch_returns (close_done m)), close_err)
