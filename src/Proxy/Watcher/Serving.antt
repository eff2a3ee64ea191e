-- ===== src/Proxy/Watcher/Serving.antt =====
-- The routes follow the configuration, however the two managers interleave.
use smaug.Prelude.{ℕ, ◌≢◌, Str, false, [], some, ◌≡◌, inl, inr, refl, arith, In, ◌∙◌, ap, subst}
use smaug.Prelude.Map.{Map, lookup}
use smaug.Config.Types.{Config, Route}
use smaug.Config.Loader.{Libraries}
use smaug.Config.Manager.{ConfigManager, Reload, get_config, receive_signal}
use smaug.Config.Manager.Machine.{Step}
use smaug.Config.Manager.Signals.{IsSeen, Step-IsSeen}
use smaug.Proxy.Reload.{IsRange}
use smaug.Proxy.Reload.Index.{index}
use smaug.Proxy.RouteManager.Listeners.{
  RouteManager, World, ManagerDependencies, NewRouteManager, new_route_manager,
}
use smaug.Proxy.RouteManager.Stopping.{view, SameRoutes-view}
use smaug.Proxy.RouteManager.Synced.{start-IsSynced}
use smaug.Proxy.RouteManager.Runs.{Runs, reload_serves, move-SameRoutes}
use smaug.Proxy.RouteManager.Goroutines.{Goroutines, Move}
use smaug.Proxy.Watcher.{
  Program, Watcher, ProgramStep, ProgramReach, start_routes, take_signal, context_done,
  reload_routes, moved_listener,
}

-- A manager that has not run yet.
abbrev pub IsFresh : RouteManager → Type 0
IsFresh m = (m.running ≡ false) × (m.route_map ≡ [])

abbrev pub Serves : RouteManager → Config → Type 0
Serves m cfg = (k : Str) → lookup k (view m) ≡ lookup k (index cfg.routes)

module _ (range : Map Route → Map Route) where
  -- What holds of the routes in each phase of the goroutine.
  abbrev Inv : Watcher → Program → Type 0
  Inv Watcher.unstarted p = IsFresh p.routes
  Inv Watcher.waiting p =
      Runs range p.routes × (p.errors ≡ [] → Serves p.routes p.seen) × IsSeen p.seen p.config_mgr
  Inv Watcher.signalled p = Runs range p.routes
  Inv Watcher.returned p = Unit

  started-Inv : (p : Program) → IsFresh p.routes → Inv Watcher.waiting (start_routes p)
  unfolding start_routes get_config
  started-Inv p (idle, fresh) =
      let cfg = p.config_mgr.config in
      let m = record p.routes { config = some cfg } in
      let (synced, allocated, listed) = start-IsSynced m cfg refl idle fresh in
      (
        Runs.begun m cfg refl idle fresh,
        (λ e k. synced k ∙ ap (λ rs. lookup k (index rs)) listed),
        inr refl,
      )

  reloaded-Inv :
      IsRange range
      → (w : World) (p : Program) → Runs range p.routes
      → Inv Watcher.waiting (reload_routes range w p)
  unfolding reload_routes get_config
  reloaded-Inv r w p runs =
      let cfg = p.config_mgr.config in
      (
        Runs.reloaded w (some cfg) runs,
        (λ e k. reload_serves range r p.routes runs w cfg e k),
        inr refl,
      )

  configured-Inv :
      (s : Watcher) (lib : Libraries) (base : Str → Str) (p : Program) (m : ConfigManager)
      → Step lib base p.config_mgr m
      → Inv s p
      → Inv s (record p { config_mgr = m })
  configured-Inv Watcher.unstarted lib base p m step v = v
  configured-Inv Watcher.waiting lib base p m step (runs, serves, seen) =
      (runs, serves, Step-IsSeen p.seen lib base p.config_mgr m step seen)
  configured-Inv Watcher.signalled lib base p m step v = v
  configured-Inv Watcher.returned lib base p m step v = v

  moved-Inv :
      (s : Watcher) (p : Program) (i : ℕ) (g h : Goroutines)
      → s ≢ Watcher.unstarted
      → p.routes.listeners i ≡ g.listener
      → Move g h
      → Inv s p
      → Inv s (moved_listener i h.listener p)
  moved-Inv Watcher.unstarted p i g h begun at step v = absurd (begun refl)
  moved-Inv Watcher.waiting p i g h begun at step (runs, serves, seen) = (
    Runs.moved i g h at step runs,
    (λ e k. SameRoutes-view k (move-SameRoutes p.routes i g h at step) ∙ serves e k),
    seen,
  )
  moved-Inv Watcher.signalled p i g h begun at step v = Runs.moved i g h at step v
  moved-Inv Watcher.returned p i g h begun at step v = v

  taken-Inv :
      (p q : Program)
      → take_signal p ≡ some q
      → Inv Watcher.waiting p
      → (q.watcher ≡ Watcher.signalled) × Inv Watcher.signalled q
  unfolding take_signal receive_signal
  taken-Inv p q e v = let runs = v.0 in ground arith

  step-Inv :
      IsRange range
      → (lib : Libraries) (base : Str → Str) (p q : Program) → ProgramStep lib base range p q
      → Inv p.watcher p
      → Inv q.watcher q
  step-Inv r lib base p _ (ProgramStep.configures m step) v =
      configured-Inv p.watcher lib base p m step v
  step-Inv r lib base p _ (ProgramStep.starts e) v =
      unfold start_routes in started-Inv p (rw e at v)
  step-Inv r lib base p _ (ProgramStep.takes q e t) v =
      let (e', v') = taken-Inv p q t (rw e at v) in rw e' v'
  step-Inv r lib base p _ (ProgramStep.cancels e) v = unfold context_done in tt
  step-Inv r lib base p _ (ProgramStep.reloads w e) v =
      unfold reload_routes in reloaded-Inv r w p (rw e at v)
  step-Inv r lib base p _ (ProgramStep.moves i g h begun at step) v =
      moved-Inv p.watcher p i g h begun at step v

  reach-Inv :
      IsRange range
      → (lib : Libraries) (base : Str → Str) (s p : Program) → Inv s.watcher s
      → ProgramReach lib base range s p
      → Inv p.watcher p
  reach-Inv r lib base s _ v ProgramReach.here = v
  reach-Inv r lib base s _ v (ProgramReach.next {p = p} {q = q} reach step) =
      step-Inv r lib base p q step (reach-Inv r lib base s p v reach)

-- However the file's events, the debounced reloads, the start and the reloads of the routes, and the
-- listeners' goroutines interleave: whenever the watching goroutine waits, no signal waits in the channel, no callback is
-- between its store and its signal, and the last handleReload (or Start) reported no error, the
-- routes are exactly those of the configuration that GetConfig returns, key by key.
pub routes_follow_config :
    (range : Map Route → Map Route)
    → IsRange range
    → (lib : Libraries) (base : Str → Str) (s p : Program) → s.watcher ≡ Watcher.unstarted
    → IsFresh s.routes
    → ProgramReach lib base range s p
    → p.watcher ≡ Watcher.waiting
    → p.config_mgr.reload_ch ≡ false
    → ¬ In Reload.stored p.config_mgr.reloads
    → p.errors ≡ []
    → Serves p.routes (get_config p.config_mgr)
unfolding get_config
routes_follow_config range r lib base s p u fresh reach waits empty none_stored ok =
    let v = reach-Inv range r lib base s p (rw u fresh) reach in
    let (runs, serves, seen) = rw waits at v in
    elim seen [
      | inl (inl h) ↦ absurd (none_stored h)
      | inl (inr h) ↦ ground arith
      | inr e ↦ subst (Serves p.routes) e (serves ok)
    ]

-- What NewRouteManager makes has not run yet.
new_route_manager-IsFresh :
    (d : ManagerDependencies) (m : RouteManager)
    → new_route_manager d ≡ NewRouteManager.made m
    → IsFresh m
unfolding new_route_manager
new_route_manager-IsFresh d m e = ground arith
