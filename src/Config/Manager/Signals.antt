-- ===== src/Config/Manager/Signals.antt =====
-- The signal of a reload: it waits in the channel, or a callback is about to send it, whenever the
-- configuration is not the one that was seen last.
use smaug.Prelude.{
  ℕ, zero, suc, Time, Str, true, List, [], ◌∷◌, none, some, ◌≡◌, ◌⊎◌, inl, inr, refl, ◌∙◌, arith,
  set, get_elem?, In, In-append_left, Option-cases,
}
use smaug.Config.Types.{Config}
use smaug.Config.Loader.{Libraries, Loaded, load}
use smaug.Config.Manager.{
  ConfigManager, Reload, Watched, set_metrics, watch, watch_returns, fire, record_config_reload,
  reload, advance, close_done, close_watcher,
}
use smaug.Config.Manager.Machine.{Step}

abbrev pub IsPending : ConfigManager → Type 0
IsPending m = In Reload.stored m.reloads ⊎ (m.reload_ch ≡ true)

abbrev pub IsSeen : Config → ConfigManager → Type 0
IsSeen c m = IsPending m ⊎ (c ≡ m.config)

In-set-other :
    {A : Type 0} (xs : List A) (i : ℕ) (a b c : A)
    → get_elem? xs i ≡ some a
    → ¬ (b ≡ a)
    → In b xs
    → In b (set xs i c)
In-set-other [] i a b c e d h = h
In-set-other (x ∷ xs) zero a b c e d (inl h) = let eq : x ≡ a = ground arith in absurd (d (h ∙ eq))
In-set-other (x ∷ xs) zero a b c e d (inr h) = inr h
In-set-other (x ∷ xs) (suc i) a b c e d (inl h) = inl h
In-set-other (x ∷ xs) (suc i) a b c e d (inr h) = inr (In-set-other xs i a b c e d h)

In-set : {A : Type 0} (xs : List A) (i : ℕ) (a c : A) → get_elem? xs i ≡ some a → In c (set xs i c)
In-set [] i a c e = ground arith
In-set (x ∷ xs) zero a c e = inl refl
In-set (x ∷ xs) (suc i) a c e = inr (In-set xs i a c e)

module _ (c : Config) where
  set-IsSeen :
      (i : ℕ) (r r' : Reload) (m : ConfigManager)
      → get_elem? m.reloads i ≡ some r
      → ¬ (Reload.stored ≡ r)
      → IsSeen c m
      → IsSeen c (record m { reloads = set m.reloads i r' })
  set-IsSeen i r r' m e d (inl (inl h)) =
      inl (inl (In-set-other m.reloads i r Reload.stored r' e d h))
  set-IsSeen i r r' m e d (inl (inr h)) = inl (inr h)
  set-IsSeen i r r' m e d (inr h) = inr h

  -- A callback that loads keeps the signal, whether it finds a configuration or not.
  loading-IsSeen :
      (i : ℕ) (l : Loaded) (m : ConfigManager)
      → get_elem? m.reloads i ≡ some Reload.loading
      → IsSeen c m
      → IsSeen c (advance i l m)
  unfolding advance reload record_config_reload
  loading-IsSeen i (Loaded.refused err) m e s =
      let kept = set-IsSeen i Reload.loading Reload.ended m e (λ h. ground arith) s in
      rw (advance, e) (ground arith)
  loading-IsSeen i (Loaded.loaded d) m e s =
      rw (advance, e) (set-IsSeen i Reload.loading (Reload.parsed d) m e (λ h. ground arith) s)

  advance-IsSeen : (i : ℕ) (l : Loaded) (m : ConfigManager) → IsSeen c m → IsSeen c (advance i l m)
  unfolding advance reload record_config_reload
  advance-IsSeen i l m s = elim (Option-cases (get_elem? m.reloads i)) [
    | inl e ↦ rw (advance, e) s
    | inr (Reload.called, e) ↦
        rw (advance, e) (set-IsSeen i Reload.called _ m e (λ h. ground arith) s)
    | inr (Reload.loading, e) ↦ loading-IsSeen i l m e s
    | inr (Reload.parsed d, e) ↦
        rw (advance, e) (inl (inl (In-set m.reloads i (Reload.parsed d) Reload.stored e)))
    | inr (Reload.stored, e) ↦ rw (advance, e) (inl (inr (ground arith)))
    | inr (Reload.ended, e) ↦
        rw (advance, e) (set-IsSeen i Reload.ended Reload.ended m e (λ h. ground arith) s)
  ]

  watch-IsSeen :
      (base : Str → Str) (now : Time) (e : Watched) (m : ConfigManager)
      → IsSeen c m
      → IsSeen c (watch base now e m)
  unfolding watch watch_returns
  watch-IsSeen base now Watched.done_closed m v = v
  watch-IsSeen base now (Watched.event none) m v = v
  watch-IsSeen base now (Watched.event (some e)) m v = ground arith
  watch-IsSeen base now (Watched.error ok) m v = ground arith

  fire-IsSeen : (now : Time) (m : ConfigManager) → IsSeen c m → IsSeen c (fire now m)
  unfolding fire
  fire-IsSeen now m v = ground (arith, In-append_left Reload.stored m.reloads (Reload.called ∷ []))

  -- No step of the manager loses the signal.
  pub Step-IsSeen :
      (lib : Libraries) (base : Str → Str) (m n : ConfigManager)
      → Step lib base m n
      → IsSeen c m
      → IsSeen c n
  Step-IsSeen lib base m _ (Step.configured reg) v = unfold set_metrics in v
  Step-IsSeen lib base m _ (Step.watched now e w) v = watch-IsSeen base now e m v
  Step-IsSeen lib base m _ (Step.fired now) v = fire-IsSeen now m v
  Step-IsSeen lib base m _ (Step.advanced i file) v = advance-IsSeen i (load lib file) m v
  Step-IsSeen lib base m _ Step.closing v = unfold close_done in v
  Step-IsSeen lib base m _ (Step.closed d w) v = unfold close_watcher in v
