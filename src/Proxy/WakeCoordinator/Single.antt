-- ===== src/Proxy/WakeCoordinator/Single.antt =====
-- At most one wake is under way at any time, and wakes begin no closer than the debounce interval.
use smaug.Prelude.{
  ℕ, ◌≤◌, ℤ, pos, ◌≤ℤ◌, Time, time_sub, Bool, true, false, List, [], ◌∷◌, none, some, Option-cases,
  ◌≡◌, ◌⊎◌, inl, inr, refl, ◌∙◌, arith,
}
use smaug.Proxy.WakeCoordinator.{
  WakeCoordinator, Phase, Dependencies, WakeCoordinatorConfig, Made, PollEvent,
  new_wake_coordinator, ensure_wake, wol_sent, wake_polls, wake_ends, close,
}
use smaug.Proxy.WakeCoordinator.Machine.{
  Step, Reach, request, sent, polled, cleared, closing, here, next,
}

-- A wake whose goroutine has not ended.
abbrev pub is_live : Phase → Bool
is_live Phase.sending = true
is_live Phase.polling = true
is_live Phase.published = true
is_live _ = false

-- A wake whose result is there.
abbrev pub is_done : Phase → Bool
is_done Phase.published = true
is_done Phase.ended = true
is_done _ = false

-- Each time but the oldest lies the interval after the one before it.
abbrev pub Spaced : ℤ → List Time → Type 0
Spaced d [] = Unit {0}
Spaced d (now ∷ []) = Unit {0}
Spaced d (now ∷ before ∷ rest) = (d ≤ℤ time_sub now before) × Spaced d (before ∷ rest)

abbrev pub newest : List Time → Time
newest [] = 0
newest (t ∷ ts) = t

pub record Inv (c : WakeCoordinator) : Type 0 where
  pub live_in_flight : (i : ℕ) → is_live (c.wakes i).phase ≡ true → c.wake_in_flight ≡ some i
  pub fresh : (i : ℕ) → c.next_wake ≤ i → (c.wakes i).phase ≡ Phase.unborn
  pub latest : c.last_wol_at ≡ newest c.begun
  pub spaced : (c.cfg.debounce ≤ℤ pos 0) ⊎ Spaced c.cfg.debounce c.begun
  pub honest :
      (i : ℕ) → is_done (c.wakes i).phase ≡ true → (c.wakes i).err ≡ none → (c.wakes i).seen ≡ true

Spaced-cons :
    (d : ℤ) (now : Time) (ts : List Time)
    → Spaced d ts
    → d ≤ℤ time_sub now (newest ts)
    → Spaced d (now ∷ ts)
Spaced-cons d now [] s h = tt
Spaced-cons d now (t ∷ ts) s h = (h, s)

module _ {c : WakeCoordinator} (v : Inv c) where
  ensure_wake-Inv : (now : Time) → Inv (ensure_wake now c).0
  unfolding ensure_wake
  ensure_wake-Inv now = elim (Option-cases c.wake_in_flight) [
    | inr (j, e) ↦ rw (e, ensure_wake) v
    | inl e ↦ record {
      live_in_flight = λ i. ground (arith, v.live_in_flight i);
      fresh = λ i h. ground (arith, v.fresh i);
      latest = ground (arith, v.latest);
      spaced = elim v.spaced [
        | inl z ↦ ground (arith, z)
        | inr s ↦ ground (arith, v.latest, Spaced-cons c.cfg.debounce now c.begun s)
      ];
      honest = λ i. ground (arith, v.honest i);
    }
  ]

  wol_sent-Inv : (j : ℕ) → (c.wakes j).phase ≡ Phase.sending → Inv (wol_sent j c)
  unfolding wol_sent
  wol_sent-Inv j p = record {
    live_in_flight = λ i. ground (arith, v.live_in_flight i);
    fresh = λ i h. ground (arith, v.fresh i);
    latest = v.latest;
    spaced = v.spaced;
    honest = λ i. ground (arith, v.honest i);
  }

  wake_polls-Inv :
      (j : ℕ) (ev : PollEvent) → (c.wakes j).phase ≡ Phase.polling → Inv (wake_polls j ev c)
  unfolding wake_polls
  wake_polls-Inv j ev p = record {
    live_in_flight = λ i. ground (arith, v.live_in_flight i);
    fresh = λ i h. ground (arith, v.fresh i);
    latest = ground (arith, v.latest);
    spaced = ground (arith, v.spaced);
    honest = λ i. ground (arith, v.honest i);
  }

  wake_ends-Inv : (j : ℕ) → (c.wakes j).phase ≡ Phase.published → Inv (wake_ends j c)
  unfolding wake_ends
  wake_ends-Inv j p = record {
    live_in_flight = λ i. ground (arith, v.live_in_flight i, v.live_in_flight j);
    fresh = λ i h. ground (arith, v.fresh i);
    latest = v.latest;
    spaced = v.spaced;
    honest = λ i. ground (arith, v.honest i, v.honest j);
  }

  close-Inv : Inv (close c)
  unfolding close
  close-Inv = record {
    live_in_flight = v.live_in_flight;
    fresh = v.fresh;
    latest = v.latest;
    spaced = v.spaced;
    honest = v.honest;
  }

Step-Inv : {c d : WakeCoordinator} → Step c d → Inv c → Inv d
Step-Inv (request now) v = ensure_wake-Inv v now
Step-Inv (sent i p) v = wol_sent-Inv v i p
Step-Inv (polled i ev p) v = wake_polls-Inv v i ev p
Step-Inv (cleared i p) v = wake_ends-Inv v i p
Step-Inv closing v = close-Inv v

Reach-Inv : {s c : WakeCoordinator} → Inv s → Reach s c → Inv c
Reach-Inv v here = v
Reach-Inv v (next r st) = Step-Inv st (Reach-Inv v r)

-- No step changes the configuration.
Step-cfg : {c d : WakeCoordinator} → Step c d → d.cfg ≡ c.cfg
unfolding ensure_wake wol_sent wake_polls wake_ends close
Step-cfg (request now) = ground arith
Step-cfg (sent i p) = ground arith
Step-cfg (polled i ev p) = ground arith
Step-cfg (cleared i p) = ground arith
Step-cfg closing = ground arith

Reach-cfg : {s c : WakeCoordinator} → Reach s c → c.cfg ≡ s.cfg
Reach-cfg here = refl
Reach-cfg (next r st) = Step-cfg st ∙ Reach-cfg r

new_debounce :
    (cfg : WakeCoordinatorConfig) (deps : Dependencies) (c : WakeCoordinator)
    → new_wake_coordinator cfg deps ≡ Made.made c
    → c.cfg.debounce ≡ cfg.debounce
unfolding new_wake_coordinator
new_debounce cfg deps c h = ground arith

new-Inv :
    (cfg : WakeCoordinatorConfig) (deps : Dependencies) (c : WakeCoordinator)
    → new_wake_coordinator cfg deps ≡ Made.made c
    → Inv c
unfolding new_wake_coordinator
new-Inv cfg deps c h = record {
  live_in_flight = λ i. ground arith;
  fresh = λ i k. ground arith;
  latest = ground arith;
  spaced = let empty : c.begun ≡ [] = ground arith in rw empty (inr tt);
  honest = λ i. ground arith;
}

module _ (cfg : WakeCoordinatorConfig) (deps : Dependencies) (s c : WakeCoordinator)
    (new : new_wake_coordinator cfg deps ≡ Made.made s) (r : Reach s c) where
  -- In every state of a coordinator, under any interleaving, two wakes that are both under way are
  -- one.
  pub single_wake :
      (i j : ℕ) → is_live (c.wakes i).phase ≡ true → is_live (c.wakes j).phase ≡ true → i ≡ j
  single_wake i j p q =
      let v = Reach-Inv (new-Inv cfg deps s new) r in
      ground (arith, v.live_in_flight i p, v.live_in_flight j q)

  -- With a positive debounce, each wake begins at least that long after the one before it.
  pub wakes-Spaced : pos 1 ≤ℤ cfg.debounce → Spaced cfg.debounce c.begun
  wakes-Spaced h =
      let v = Reach-Inv (new-Inv cfg deps s new) r in
      let same = Reach-cfg r in
      let kept : c.cfg.debounce ≡ cfg.debounce = ground (arith, new_debounce cfg deps s new) in
      elim v.spaced [ inl z ↦ absurd (ground arith) | inr sp ↦ rw kept at sp ]

  -- A wake that ends without an error has seen the server healthy.
  pub wake_result_honest :
      (i : ℕ) → is_done (c.wakes i).phase ≡ true → (c.wakes i).err ≡ none → (c.wakes i).seen ≡ true
  wake_result_honest = (Reach-Inv (new-Inv cfg deps s new) r).honest
