-- ===== src/Config/Manager/Debounce.antt =====
-- The debouncing of `watch`: a burst of changes leads to one reload.
use smaug.Prelude.{
  ◌+◌, ◌<◌, leb, Time, Str, true, List, [], ◌∷◌, ◌++◌, some, ◌≡◌, arith, if◌then◌else◌,
}
use smaug.Config.Manager.{
  ConfigManager, Event, Watched, Reload, is_relevant, watch, fire, debounce_duration,
}

module _ (base : Str → Str) where
  -- The loop of `watch` over events at their times; the timer runs meanwhile.
  unfoldable pub watch_all : List (Time × Event) → ConfigManager → ConfigManager
  watch_all [] m = m
  watch_all ((t, e) ∷ es) m = watch_all es (watch base t (Watched.event (some e)) (fire t m))

  -- The time of the last write or create of the file, after one at `last`.
  unfoldable pub last_change : Str → Time → List (Time × Event) → Time
  last_change path last [] = last
  last_change path last ((t, e) ∷ es) =
      last_change path (if is_relevant base path e then t else last) es

  -- Each event comes less than the debounce duration after the change before it.
  abbrev pub IsBurst : Str → Time → List (Time × Event) → Type 0
  IsBurst path last [] = Unit
  IsBurst path last ((t, e) ∷ es) =
      (t < last + debounce_duration) × IsBurst path (if is_relevant base path e then t else last) es

  -- The timer waits for the debounce duration after `last`.
  abbrev IsArmed : ConfigManager → Time → ConfigManager → Type 0
  IsArmed old last m =
      (m.timer ≡ some (last + debounce_duration)) × (m.reloads ≡ old.reloads) × (m.path ≡ old.path)

  watched-IsArmed :
      (old m : ConfigManager) (last t : Time) (e : Event)
      → t < last + debounce_duration
      → IsArmed old last m
      → IsArmed old
          (if is_relevant base old.path e then t else last)
          (watch base t (Watched.event (some e)) (fire t m))
  unfolding watch fire
  watched-IsArmed old m last t e early v = ground arith

  watch_all-IsArmed :
      (old m : ConfigManager) (last : Time) (es : List (Time × Event))
      → IsBurst old.path last es
      → IsArmed old last m
      → IsArmed old (last_change old.path last es) (watch_all es m)
  unfolding watch_all last_change
  watch_all-IsArmed old m last [] b v = v
  watch_all-IsArmed old m last ((t, e) ∷ es) b v =
      watch_all-IsArmed old (watch base t (Watched.event (some e)) (fire t m))
        (if is_relevant base old.path e then t else last) es b.1
        (watched-IsArmed old m last t e b.0 v)

  -- However many events follow a write or create of the file, each less than a second after the
  -- change before it, the timer starts exactly one reload, and not before a second has passed since
  -- the last change.
  pub burst_reloads_once :
      (m : ConfigManager) (t : Time) (e : Event) (es : List (Time × Event)) (now : Time)
      → is_relevant base m.path e ≡ true
      → IsBurst m.path t es
      → (fire now (watch_all es (watch base t (Watched.event (some e)) m))).reloads ≡ (
          if leb (last_change m.path t es + debounce_duration) now
          then m.reloads ++ Reload.called ∷ []
          else m.reloads)
  unfolding fire watch
  burst_reloads_once m t e es now relevant b =
      let first : IsArmed m t (watch base t (Watched.event (some e)) m) = ground arith in
      let v = watch_all-IsArmed m (watch base t (Watched.event (some e)) m) t es b first in
      ground arith
