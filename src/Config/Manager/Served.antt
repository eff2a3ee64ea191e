-- ===== src/Config/Manager/Served.antt =====
-- What GetConfig returns: a valid configuration in every state, and one and the same once Stop has
-- returned with no reload under way.
use smaug.Prelude.{
  ℕ, Time, Str, Bool, true, Option, none, some, ◌≡◌, refl, inl, inr, arith, get_elem?, All, All-set,
  All-get_elem?, All-append_one, Option-cases, Bool-cases,
}
use smaug.Config.Types.{Config}
use smaug.Config.Loader.{Libraries, Loaded, load, load-validate}
use smaug.Config.Validation.{validate}
use smaug.Config.Validation.Rules.{IsConfig}
use smaug.Config.Validation.Complete.{validate_iff}
use smaug.Config.Manager.{
  ConfigManager, NewManager, Reload, Watched, new_manager, get_config, set_metrics, receive_signal,
  watch, watch_returns, fire, record_config_reload, reload, advance, close_done, close_watcher,
}
use smaug.Config.Manager.Machine.{Step, Reach}

module _ (lib : Libraries) (base : Str → Str) where
  abbrev IsValid : Config → Type 0
  IsValid c = validate lib.parse_url lib.decode_base64 c ≡ none

  -- What a callback has parsed is valid.
  abbrev IsParsed : Reload → Type 0
  IsParsed (Reload.parsed c) = IsValid c
  IsParsed _ = Unit

  abbrev Inv : ConfigManager → Type 0
  Inv m = IsValid m.config × All IsParsed m.reloads

  abbrev Parses : Loaded → Type 0
  Parses l = (c : Config) → l ≡ Loaded.loaded c → IsValid c

  reload-Inv :
      (l : Loaded) (r : Reload) (m : ConfigManager)
      → Parses l
      → IsValid m.config
      → IsParsed r
      → IsValid (reload l r m).0.config × IsParsed (reload l r m).1
  unfolding reload record_config_reload
  reload-Inv l Reload.called m ok v p =
      (v, elim (Bool-cases m.done) [ inl e ↦ rw e tt | inr e ↦ rw e tt ])
  reload-Inv (Loaded.refused e) Reload.loading m ok v p = (ground arith, tt)
  reload-Inv (Loaded.loaded c) Reload.loading m ok v p = (v, ok c refl)
  reload-Inv l (Reload.parsed c) m ok v p = (p, tt)
  reload-Inv l Reload.stored m ok v p = (ground arith, tt)
  reload-Inv l Reload.ended m ok v p = (v, tt)

  advance-Inv : (i : ℕ) (l : Loaded) (m : ConfigManager) → Parses l → Inv m → Inv (advance i l m)
  unfolding advance
  advance-Inv i l m ok v = elim (Option-cases (get_elem? m.reloads i)) [
    | inl e ↦ rw (advance, e) v
    | inr (r, e) ↦
        let both = reload-Inv l r m ok v.0 (All-get_elem? IsParsed m.reloads i r v.1 e) in
        rw (advance, e) (both.0, All-set IsParsed m.reloads i (reload l r m).1 v.1 both.1)
  ]

  watch-Inv : (now : Time) (e : Watched) (m : ConfigManager) → Inv m → Inv (watch base now e m)
  unfolding watch watch_returns
  watch-Inv now Watched.done_closed m v = v
  watch-Inv now (Watched.event none) m v = v
  watch-Inv now (Watched.event (some e)) m v = ground arith
  watch-Inv now (Watched.error ok) m v = ground arith

  fire-Inv : (now : Time) (m : ConfigManager) → Inv m → Inv (fire now m)
  unfolding fire
  fire-Inv now m v = ground (arith, All-append_one IsParsed m.reloads Reload.called v.1 tt)

  Step-Inv : (m n : ConfigManager) → Step lib base m n → Inv m → Inv n
  Step-Inv m _ (Step.configured reg) v = unfold set_metrics in v
  Step-Inv m _ (Step.watched now e w) v = watch-Inv now e m v
  Step-Inv m _ (Step.fired now) v = fire-Inv now m v
  Step-Inv m _ (Step.advanced i file) v = advance-Inv i (load lib file) m (load-validate lib file) v
  Step-Inv m _ Step.closing v = unfold close_done in v
  Step-Inv m _ (Step.closed d w) v = unfold close_watcher in v

  received-Inv : (m n : ConfigManager) → receive_signal m ≡ some n → Inv m → Inv n
  unfolding receive_signal
  received-Inv m n e v = ground arith

  Reach-Inv : (s m : ConfigManager) → Inv s → Reach lib base s m → Inv m
  Reach-Inv s _ v Reach.here = v
  Reach-Inv s _ v (Reach.next {m = m} {n = n} r step) = Step-Inv m n step (Reach-Inv s m v r)
  Reach-Inv s _ v (Reach.received {m = m} {n = n} r e) = received-Inv m n e (Reach-Inv s m v r)

  made-Inv :
      (path : Str) (l : Loaded) (w a : Bool) (s : ConfigManager)
      → Parses l
      → new_manager path l w a ≡ NewManager.made s
      → Inv s
  unfolding new_manager
  made-Inv path (Loaded.refused e) w a s ok made = ground arith
  made-Inv path (Loaded.loaded c) w a s ok made = let v = ok c refl in ground arith

  -- Whatever the file comes to hold and however reloads, events, signals and Stop interleave, what
  -- GetConfig returns from a manager that NewManager made meets every rule of the validation.
  pub get_config-IsConfig :
      (path : Str) (file : Option Str) (w a : Bool) (s m : ConfigManager)
      → new_manager path (load lib file) w a ≡ NewManager.made s
      → Reach lib base s m
      → IsConfig lib.parse_url lib.decode_base64 (get_config m)
  unfolding get_config
  get_config-IsConfig path file w a s m made r =
      let v = made-Inv path (load lib file) w a s (load-validate lib file) made in
      (validate_iff lib.parse_url lib.decode_base64 m.config).0 (Reach-Inv s m v r).0

-- A callback that has not passed its check of `done`, or is over.
abbrev pub IsIdle : Reload → Type 0
IsIdle Reload.called = Unit
IsIdle Reload.ended = Unit
IsIdle _ = ⊥

module _ (lib : Libraries) (base : Str → Str) (old : ConfigManager) where
  -- Closed, with no callback under way, and with the configuration and the records of before.
  abbrev IsOver : ConfigManager → Type 0
  IsOver m =
      (m.done ≡ true) × All IsIdle m.reloads × (m.config ≡ old.config) × (m.recorded ≡ old.recorded)

  reload-IsOver :
      (l : Loaded) (r : Reload) (m : ConfigManager)
      → IsOver m
      → IsIdle r
      → ((reload l r m).0.done ≡ true)
        × IsIdle (reload l r m).1
        × ((reload l r m).0.config ≡ old.config)
        × ((reload l r m).0.recorded ≡ old.recorded)
  unfolding reload
  reload-IsOver l Reload.called m v q = (v.0, rw v.0 tt, v.2, v.3)
  reload-IsOver l Reload.ended m v q = (v.0, tt, v.2, v.3)
  reload-IsOver l Reload.loading m v q = absurd q
  reload-IsOver l (Reload.parsed c) m v q = absurd q
  reload-IsOver l Reload.stored m v q = absurd q

  advance-IsOver : (i : ℕ) (l : Loaded) (m : ConfigManager) → IsOver m → IsOver (advance i l m)
  unfolding advance
  advance-IsOver i l m v = elim (Option-cases (get_elem? m.reloads i)) [
    | inl e ↦ rw (advance, e) v
    | inr (r, e) ↦
        let n = reload-IsOver l r m v (All-get_elem? IsIdle m.reloads i r v.1 e) in
        rw (advance, e) (n.0, All-set IsIdle m.reloads i (reload l r m).1 v.1 n.1, n.2, n.3)
  ]

  watch-IsOver :
      (now : Time) (e : Watched) (m : ConfigManager) → IsOver m → IsOver (watch base now e m)
  unfolding watch watch_returns
  watch-IsOver now Watched.done_closed m v = v
  watch-IsOver now (Watched.event none) m v = v
  watch-IsOver now (Watched.event (some e)) m v = ground arith
  watch-IsOver now (Watched.error ok) m v = ground arith

  fire-IsOver : (now : Time) (m : ConfigManager) → IsOver m → IsOver (fire now m)
  unfolding fire
  fire-IsOver now m v = ground (arith, All-append_one IsIdle m.reloads Reload.called v.1 tt)

  Step-IsOver : (m n : ConfigManager) → Step lib base m n → IsOver m → IsOver n
  Step-IsOver m _ (Step.configured reg) v = unfold set_metrics in v
  Step-IsOver m _ (Step.watched now e w) v = watch-IsOver now e m v
  Step-IsOver m _ (Step.fired now) v = fire-IsOver now m v
  Step-IsOver m _ (Step.advanced i file) v = advance-IsOver i (load lib file) m v
  Step-IsOver m _ Step.closing v = unfold close_done in (refl, v.1, v.2, v.3)
  Step-IsOver m _ (Step.closed d w) v = unfold close_watcher in v

  received-IsOver : (m n : ConfigManager) → receive_signal m ≡ some n → IsOver m → IsOver n
  unfolding receive_signal
  received-IsOver m n e v = ground arith

  Reach-IsOver : (m : ConfigManager) → IsOver old → Reach lib base old m → IsOver m
  Reach-IsOver _ v Reach.here = v
  Reach-IsOver _ v (Reach.next {m = m} {n = n} r step) = Step-IsOver m n step (Reach-IsOver m v r)
  Reach-IsOver _ v (Reach.received {m = m} {n = n} r e) = received-IsOver m n e (Reach-IsOver m v r)

  -- Once `done` is closed and no callback is between its check and its end, the configuration and
  -- the recorded outcomes never change again, whatever the timer and the watcher still do.
  stopped_keeps_config :
      (m : ConfigManager)
      → old.done ≡ true
      → All IsIdle old.reloads
      → Reach lib base old m
      → (get_config m ≡ get_config old) × (m.recorded ≡ old.recorded)
  unfolding get_config
  stopped_keeps_config m d idle r = let v = Reach-IsOver m (d, idle, refl, refl) r in (v.2, v.3)
