-- ===== src/Config/Manager/Machine.antt =====
-- The manager as a transition system: the goroutine of `watch`, the timer, the callbacks and a
-- caller of Stop, in any interleaving, and the receiver of the signal.
use smaug.Prelude.{ℕ, Time, Str, Bool, true, false, Option, some, ◌≡◌}
use smaug.Config.Loader.{Libraries, load}
use smaug.Config.Manager.{
  ConfigManager, Watched, set_metrics, receive_signal, watch, fire, advance, close_done,
  close_watcher,
}

module _ (lib : Libraries) (base : Str → Str) where
  -- A callback that loads finds the file in any state.
  pub data Step (m : ConfigManager) : ConfigManager → Type 0 where
    configured : (reg : Bool) → Step m (set_metrics reg m)
    watched : (now : Time) (e : Watched) → m.watching ≡ true → Step m (watch base now e m)
    fired : (now : Time) → Step m (fire now m)
    advanced : (i : ℕ) (file : Option Str) → Step m (advance i (load lib file) m)
    closing : Step m (close_done m)
    closed : m.done ≡ true → m.watching ≡ false → Step m (close_watcher m)

  pub data Reach (s : ConfigManager) : ConfigManager → Type 0 where
    here : Reach s s
    next : {m n : ConfigManager} → Reach s m → Step m n → Reach s n
    received : {m n : ConfigManager} → Reach s m → receive_signal m ≡ some n → Reach s n
