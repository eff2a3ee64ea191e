-- ===== src/Tests/Watching.antt =====
-- A change of the file, from its event to the routes.
use smaug.Prelude.{
  str_eq, true, false, [], some, ◌≡◌, refl, sym, subst, In, keep, contains, format_int, digits, inl,
  inr, arith,
}
use smaug.Prelude.Map.{lookup, insert, delete}
use smaug.Config.Loader.{Loaded, load}
use smaug.Config.Manager.{
  ConfigManager, Reload, get_config, receive_signal, watch, fire, advance, reload,
  record_config_reload, is_relevant,
}
use smaug.Config.Manager.Machine.{Step}
use smaug.Proxy.Reload.{
  route_key, detect_changes, index_routes, for_each, classify, note_removed, route_equals,
}
use smaug.Proxy.RouteManager.{
  start, add_listeners, add_listener, create_listener, stop_route, start_route, drop_stopped,
  settle, shut_listener, startup_error, wake_coordinator_for, wrap_with_wake_coordinator,
}
use smaug.Proxy.RouteManager.Changes.{
  handle_reload, apply_route_changes, stop_all, start_all, cleanup_stopped_routes, delete_keys,
}
use smaug.Proxy.RouteManager.Listeners.{modify, set_state}
use smaug.Proxy.Watcher.{
  Program, Watcher, ProgramStep, ProgramReach, start_routes, take_signal, reload_routes,
}
use smaug.Proxy.Watcher.Serving.{Serves, routes_follow_config}
use smaug.Tests.Data.{before, idle_manager, calm}
use smaug.Tests.Manager.{lib, bare, file, loads, base_name, manager, write_seen}
use smaug.Tests.Routes.{in_order, in_order-IsRange}

abbrev program : Program
program = record {
  config_mgr = record manager { config = before };
  routes = idle_manager;
  watcher = Watcher.unstarted;
  seen = before;
  errors = [];
}

-- The routes are started, the file is written, and its callback loads it.
abbrev changed : Loaded → ConfigManager
changed l = advance 0 l (
    advance 0 l (
      advance 0 l (
        advance 0 l
          (fire 2_000_000_000 (watch base_name 5 write_seen (start_routes program).config_mgr)))))

abbrev signalled : Loaded → Program
signalled l = record (start_routes program) {
  config_mgr = record (changed l) { reload_ch = false };
  watcher = Watcher.signalled;
}

abbrev reloaded : Loaded → Program
reloaded l = reload_routes in_order calm (signalled l)

taken :
    take_signal (record (start_routes program) { config_mgr = changed (Loaded.loaded bare) })
    ≡ some (signalled (Loaded.loaded bare))
unfolding take_signal receive_signal start_routes advance reload record_config_reload fire watch
    is_relevant str_eq
taken = refl

reloaded-ok : (reloaded (Loaded.loaded bare)).errors ≡ []
unfolding reload_routes get_config start_routes advance reload record_config_reload fire watch
    is_relevant str_eq handle_reload detect_changes for_each index_routes start add_listeners
    add_listener insert note_removed lookup route_key create_listener format_int classify
    route_equals apply_route_changes start_all digits keep delete contains modify set_state
    cleanup_stopped_routes delete_keys drop_stopped settle shut_listener start_route startup_error
    stop_all stop_route wake_coordinator_for wrap_with_wake_coordinator
reloaded-ok = refl

reloaded-empty : (reloaded (Loaded.loaded bare)).config_mgr.reload_ch ≡ false
unfolding reload_routes
reloaded-empty = refl

reloaded-watches : (l : Loaded) → (reloaded l).watcher ≡ Watcher.waiting
unfolding reload_routes
reloaded-watches l = refl

reloaded-sent : ¬ In Reload.stored (reloaded (Loaded.loaded bare)).config_mgr.reloads
unfolding reload_routes get_config start_routes advance reload record_config_reload fire watch
    is_relevant str_eq
reloaded-sent (inl e) = ground arith
reloaded-sent (inr n) = absurd n

-- The program in which the manager has come to a state, and the routes are as they were started.
abbrev with_manager : ConfigManager → Program
with_manager m = record (start_routes program) { config_mgr = m }

abbrev armed : ConfigManager
armed = watch base_name 5 write_seen (start_routes program).config_mgr

abbrev called : ConfigManager
called = fire 2_000_000_000 armed

abbrev advanced : ConfigManager → ConfigManager
advanced m = advance 0 (load lib file) m

abbrev Reached : Program → Type 0
Reached = ProgramReach lib base_name in_order program

started-Reached : Reached (with_manager (start_routes program).config_mgr)
unfolding start_routes
started-Reached = ProgramReach.next ProgramReach.here (ProgramStep.starts refl)

still_watches : (start_routes program).config_mgr.watching ≡ true
unfolding start_routes
still_watches = refl

called-Reached : Reached (with_manager called)
called-Reached =
    ProgramReach.next
      (ProgramReach.next started-Reached
        (ProgramStep.configures armed (Step.watched 5 write_seen still_watches)))
      (ProgramStep.configures called (Step.fired 2_000_000_000))

advanced-Reached :
    (m : ConfigManager) → Reached (with_manager m) → Reached (with_manager (advanced m))
advanced-Reached m r =
    ProgramReach.next r (ProgramStep.configures (advanced m) (Step.advanced 0 file))

changed-Reached : Reached (with_manager (changed (load lib file)))
changed-Reached = advanced-Reached (advanced (advanced (advanced called))) (
    advanced-Reached (advanced (advanced called))
      (advanced-Reached (advanced called) (advanced-Reached called called-Reached)))

started-waits : (l : Loaded) → (with_manager (changed l)).watcher ≡ Watcher.waiting
unfolding start_routes
started-waits l = refl

reloaded-Reached : Reached (reloaded (load lib file))
reloaded-Reached =
    let signal : take_signal (with_manager (changed (load lib file)))
        ≡ some (signalled (load lib file)) =
      subst (λ l. take_signal (with_manager (changed l)) ≡ some (signalled l)) (sym loads) taken in
    ProgramReach.next
      (ProgramReach.next changed-Reached
        (ProgramStep.takes (signalled (load lib file)) (started-waits (load lib file)) signal))
      (ProgramStep.reloads calm refl)

routes_follow_config_example :
    Serves (reloaded (load lib file)).routes (get_config (reloaded (load lib file)).config_mgr)
routes_follow_config_example =
    routes_follow_config in_order in_order-IsRange lib base_name program (reloaded (load lib file))
      refl (refl, refl) reloaded-Reached (reloaded-watches (load lib file))
      (subst (λ l. (reloaded l).config_mgr.reload_ch ≡ false) (sym loads) reloaded-empty)
      (subst (λ l. ¬ In Reload.stored (reloaded l).config_mgr.reloads) (sym loads) reloaded-sent)
      (subst (λ l. (reloaded l).errors ≡ []) (sym loads) reloaded-ok)
