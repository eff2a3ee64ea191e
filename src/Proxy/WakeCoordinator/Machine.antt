-- ===== src/Proxy/WakeCoordinator/Machine.antt =====
-- The coordinator as a transition system: requests, the goroutines of the wakes, and Close, in any
-- interleaving.
use smaug.Prelude.{ℕ, Time, ◌≡◌}
use smaug.Proxy.WakeCoordinator.{
  WakeCoordinator, Phase, PollEvent, ensure_wake, wol_sent, wake_polls, wake_ends, close,
}

pub data Step (c : WakeCoordinator) : WakeCoordinator → Type 0 where
  request : (now : Time) → Step c (ensure_wake now c).0
  sent : (i : ℕ) → (c.wakes i).phase ≡ Phase.sending → Step c (wol_sent i c)
  polled : (i : ℕ) (ev : PollEvent) → (c.wakes i).phase ≡ Phase.polling → Step c (wake_polls i ev c)
  cleared : (i : ℕ) → (c.wakes i).phase ≡ Phase.published → Step c (wake_ends i c)
  closing : Step c (close c)

pub data Reach (s : WakeCoordinator) : WakeCoordinator → Type 0 where
  here : Reach s s
  next : {c d : WakeCoordinator} → Reach s c → Step c d → Reach s d
