-- ===== src/Proxy/RouteManager/Goroutines/Shapes.antt =====
-- The states that a listener can be in before it is stopped, by the phases of its goroutines
-- (internal/proxy/route_manager.go).
use smaug.Prelude.{true, false, ◌≡◌, ◌⊎◌, inl, inr, refl, arith}
use smaug.Proxy.RouteManager.Listeners.{Listener, ListenerState, Hang, Startup, set_state}
use smaug.Proxy.RouteManager.{settle}
use smaug.Proxy.RouteManager.Goroutines.{
  Goroutines, Runner, Probe, Move, Moves, spawn, begin_run, probe_read, probe_write, probe_close,
  serve_fail, fail_close, close_started,
}

module _ (l : Listener) where
  -- What startRoute finds, by what the goroutines have come to.
  abbrev at : Startup → Listener
  at u = settle u l

  -- The listener while its server has not failed, by the phase of the probe.
  abbrev Unfailed : Probe → Listener → Type 0
  Unfailed Probe.unstarted x = ⊥
  Unfailed Probe.asleep x = x ≡ at (Startup.hangs Hang.binding)
  Unfailed Probe.saw_starting x = x ≡ at (Startup.hangs Hang.binding)
  Unfailed Probe.marked x = x ≡ at (Startup.hangs Hang.marked)
  Unfailed Probe.done x = x ≡ at Startup.comes_up

  abbrev Failed : Probe → Listener → Type 0
  Failed Probe.unstarted x = ⊥
  Failed Probe.asleep x = x ≡ at (Startup.hangs Hang.failing)
  Failed Probe.saw_starting x = x ≡ at (Startup.hangs Hang.failing)
  Failed Probe.marked x =
      (x ≡ at (Startup.hangs Hang.failing)) ⊎ (x ≡ at (Startup.hangs Hang.overwritten))
  Failed Probe.done x =
      (x ≡ at (Startup.hangs Hang.failing)) ⊎ (x ≡ at Startup.fails) ⊎ (x ≡ at Startup.fails_unseen)

  abbrev Told : Probe → Listener → Type 0
  Told Probe.unstarted x = ⊥
  Told Probe.asleep x = x ≡ at Startup.fails
  Told Probe.saw_starting x = x ≡ at Startup.fails
  Told _ x = (x ≡ at Startup.fails) ⊎ (x ≡ at Startup.fails_unseen)

  abbrev pub Shape : Runner → Probe → Listener → Type 0
  Shape Runner.spawned p x = (p ≡ Probe.unstarted) × (x ≡ at (Startup.hangs Hang.unscheduled))
  Shape Runner.binding p x = Unfailed p x
  Shape Runner.accepting p x = Unfailed p x
  Shape Runner.erring p x = Unfailed p x
  Shape Runner.failing p x = Failed p x
  Shape Runner.ended p x = Told p x

  Unfailed-fails :
      (p : Probe) (x : Listener)
      → Unfailed p x
      → Failed p (record x { state = ListenerState.failed; start_err = true })
  unfolding settle
  Unfailed-fails Probe.unstarted x v = v
  Unfailed-fails Probe.asleep x v = rw v refl
  Unfailed-fails Probe.saw_starting x v = rw v refl
  Unfailed-fails Probe.marked x v = inl (rw v refl)
  Unfailed-fails Probe.done x v = inr (inl (rw v refl))

  Failed-Told : (p : Probe) (x : Listener) → Failed p x → Told p (close_started x)
  unfolding close_started settle
  Failed-Told Probe.unstarted x v = v
  Failed-Told Probe.asleep x v = rw v refl
  Failed-Told Probe.saw_starting x v = rw v refl
  Failed-Told Probe.marked x (inl v) = inl (rw v refl)
  Failed-Told Probe.marked x (inr v) = inr (rw v refl)
  Failed-Told Probe.done x (inl v) = inl (rw v refl)
  Failed-Told Probe.done x (inr (inl v)) = inl (rw v refl)
  Failed-Told Probe.done x (inr (inr v)) = inr (rw v refl)

  reads-Shape :
      (r : Runner) (g : Goroutines)
      → Shape r Probe.asleep g.listener
      → Shape r (probe_read g).probe (probe_read g).listener
  unfolding probe_read settle
  reads-Shape Runner.spawned g (p, e) = absurd (ground arith)
  reads-Shape Runner.binding g v = rw v refl
  reads-Shape Runner.accepting g v = rw v refl
  reads-Shape Runner.erring g v = rw v refl
  reads-Shape Runner.failing g v = rw v (inl refl)
  reads-Shape Runner.ended g v = rw v (inl refl)

  writes-Shape :
      (r : Runner) (g : Goroutines)
      → Shape r Probe.saw_starting g.listener
      → Shape r Probe.marked (probe_write g).listener
  unfolding probe_write settle set_state
  writes-Shape Runner.spawned g (p, e) = absurd (ground arith)
  writes-Shape Runner.binding g v = rw v refl
  writes-Shape Runner.accepting g v = rw v refl
  writes-Shape Runner.erring g v = rw v refl
  writes-Shape Runner.failing g v = inr (rw v refl)
  writes-Shape Runner.ended g v = inr (rw v refl)

  closes-Shape :
      (r : Runner) (g : Goroutines)
      → Shape r Probe.marked g.listener
      → Shape r Probe.done (probe_close g).listener
  unfolding probe_close close_started settle
  closes-Shape Runner.spawned g (p, e) = absurd (ground arith)
  closes-Shape Runner.binding g v = rw v refl
  closes-Shape Runner.accepting g v = rw v refl
  closes-Shape Runner.erring g v = rw v refl
  closes-Shape Runner.failing g (inl v) = inr (inl (rw v refl))
  closes-Shape Runner.failing g (inr v) = inr (inr (rw v refl))
  closes-Shape Runner.ended g (inl v) = inl (rw v refl)
  closes-Shape Runner.ended g (inr v) = inr (rw v refl)

  -- What holds of the goroutines while nothing stops the listener.
  abbrev pub IsUnstopped : Goroutines → Type 0
  IsUnstopped g = Shape g.runner g.probe g.listener × (g.shut ≡ false)

  move-IsUnstopped : (g h : Goroutines) → Move g h → IsUnstopped g → IsUnstopped h
  unfolding begin_run serve_fail fail_close probe_read probe_write probe_close settle set_state
  move-IsUnstopped g _ (Move.begins e) (v, o) = let (p, x) = rw e at v in (rw x refl, o)
  move-IsUnstopped g _ (Move.binds e) (v, o) = (rw e at v, o)
  move-IsUnstopped g _ (Move.bind_fails e) (v, o) = (rw e at v, o)
  move-IsUnstopped g _ (Move.accept_fails e f) (v, o) = (rw e at v, o)
  move-IsUnstopped g _ (Move.writes_error e) (v, o) =
      (Unfailed-fails g.probe g.listener (rw e at v), o)
  move-IsUnstopped g _ (Move.tells e) (v, o) = (Failed-Told g.probe g.listener (rw e at v), o)
  move-IsUnstopped g _ (Move.closed_early e f) (v, o) = absurd (ground arith)
  move-IsUnstopped g _ (Move.closed e f) (v, o) = absurd (ground arith)
  move-IsUnstopped g _ (Move.reads e) (v, o) = (reads-Shape g.runner g (rw e at v), o)
  move-IsUnstopped g _ (Move.writes e) (v, o) = (writes-Shape g.runner g (rw e at v), o)
  move-IsUnstopped g _ (Move.closes e) (v, o) = (closes-Shape g.runner g (rw e at v), o)

  pub moves-IsUnstopped : (g : Goroutines) → Moves (spawn l) g → IsUnstopped g
  unfolding spawn settle
  moves-IsUnstopped _ Moves.here = ((refl, refl), refl)
  moves-IsUnstopped _ (Moves.then {g = g} {h = h} ms m) =
      move-IsUnstopped g h m (moves-IsUnstopped g ms)

  -- A listener that has a name for how far its goroutines have come.
  abbrev IsNamed : Listener → Type 0
  IsNamed x = (u : Startup) × (x ≡ at u)

  Unfailed-IsNamed : (p : Probe) (x : Listener) → Unfailed p x → IsNamed x
  Unfailed-IsNamed Probe.unstarted x v = absurd v
  Unfailed-IsNamed Probe.asleep x v = (Startup.hangs Hang.binding, v)
  Unfailed-IsNamed Probe.saw_starting x v = (Startup.hangs Hang.binding, v)
  Unfailed-IsNamed Probe.marked x v = (Startup.hangs Hang.marked, v)
  Unfailed-IsNamed Probe.done x v = (Startup.comes_up, v)

  Failed-IsNamed : (p : Probe) (x : Listener) → Failed p x → IsNamed x
  Failed-IsNamed Probe.unstarted x v = absurd v
  Failed-IsNamed Probe.asleep x v = (Startup.hangs Hang.failing, v)
  Failed-IsNamed Probe.saw_starting x v = (Startup.hangs Hang.failing, v)
  Failed-IsNamed Probe.marked x (inl v) = (Startup.hangs Hang.failing, v)
  Failed-IsNamed Probe.marked x (inr v) = (Startup.hangs Hang.overwritten, v)
  Failed-IsNamed Probe.done x (inl v) = (Startup.hangs Hang.failing, v)
  Failed-IsNamed Probe.done x (inr (inl v)) = (Startup.fails, v)
  Failed-IsNamed Probe.done x (inr (inr v)) = (Startup.fails_unseen, v)

  Told-IsNamed : (p : Probe) (x : Listener) → Told p x → IsNamed x
  Told-IsNamed Probe.unstarted x v = absurd v
  Told-IsNamed Probe.asleep x v = (Startup.fails, v)
  Told-IsNamed Probe.saw_starting x v = (Startup.fails, v)
  Told-IsNamed Probe.marked x (inl v) = (Startup.fails, v)
  Told-IsNamed Probe.marked x (inr v) = (Startup.fails_unseen, v)
  Told-IsNamed Probe.done x (inl v) = (Startup.fails, v)
  Told-IsNamed Probe.done x (inr v) = (Startup.fails_unseen, v)

  pub Shape-IsNamed : (r : Runner) (p : Probe) (x : Listener) → Shape r p x → IsNamed x
  Shape-IsNamed Runner.spawned p x (e, v) = (Startup.hangs Hang.unscheduled, v)
  Shape-IsNamed Runner.binding p x v = Unfailed-IsNamed p x v
  Shape-IsNamed Runner.accepting p x v = Unfailed-IsNamed p x v
  Shape-IsNamed Runner.erring p x v = Unfailed-IsNamed p x v
  Shape-IsNamed Runner.failing p x v = Failed-IsNamed p x v
  Shape-IsNamed Runner.ended p x v = Told-IsNamed p x v
