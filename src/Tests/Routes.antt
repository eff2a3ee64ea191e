-- ===== src/Tests/Routes.antt =====
-- Starting and reloading routes, on one configuration and its successor.
use smaug.Prelude.{
  Str, str, true, [], some, ◌≡◌, ◌≢◌, refl, In, ap, ◌∙◌, ◌↔◌, str_eq, format_int, digits, keep,
  contains,
}
use smaug.Prelude.Map.{Map, lookup, insert, delete}
use smaug.Config.Types.{Route}
use smaug.Proxy.Reload.{
  route_key, IsRange, detect_changes, index_routes, for_each, classify, note_removed, route_equals,
}
use smaug.Proxy.Reload.Index.{index}
use smaug.Proxy.Reload.Diff.{modified_iff}
use smaug.Proxy.Reload.Patch.{patch, patch-detect_changes}
use smaug.Proxy.RouteManager.{
  start, add_listeners, add_listener, create_listener, stop_route, start_route, drop_stopped,
  settle, shut_listener, startup_error, wake_coordinator_for, wrap_with_wake_coordinator,
}
use smaug.Proxy.RouteManager.Changes.{
  handle_reload, routes_of, apply_route_changes, stop_all, start_all, cleanup_stopped_routes,
  delete_keys,
}
use smaug.Proxy.WakeCoordinator.{close, new_wake_coordinator, validate_wake_coordinator_config}
use smaug.Proxy.RouteManager.Listeners.{RouteManager, modify, set_state}
use smaug.Proxy.RouteManager.Stopping.{view, IsAllocated, is_stoppable}
use smaug.Proxy.RouteManager.Reloading.{IsSynced, handle_reload-serves}
use smaug.Proxy.RouteManager.Synced.{start-IsSynced}
use smaug.Proxy.RouteManager.Runs.{Runs, reload_serves}
use smaug.Tests.Data.{moved, before, after, idle_manager, calm, stuck}

abbrev pub in_order : Map Route → Map Route
in_order m = m

pub in_order-IsRange : IsRange in_order
in_order-IsRange = record { complete = λ m e i. i; sound = λ m e i. i }

-- The started manager, with the next configuration.
abbrev running_manager : RouteManager
running_manager = record (start idle_manager).0 { config = some after }

running-IsAllocated : IsAllocated running_manager
running-IsAllocated = (start-IsSynced idle_manager before refl refl refl).1

running-IsSynced : IsSynced running_manager
running-IsSynced = (start-IsSynced idle_manager before refl refl refl).0

reload_ok : (handle_reload in_order calm running_manager).1 ≡ []
unfolding handle_reload detect_changes for_each index_routes start add_listeners add_listener insert
    note_removed lookup str_eq route_key create_listener format_int classify route_equals
    apply_route_changes start_all digits keep delete contains modify set_state
    cleanup_stopped_routes delete_keys drop_stopped settle shut_listener start_route startup_error
    stop_all stop_route wake_coordinator_for wrap_with_wake_coordinator close new_wake_coordinator
    validate_wake_coordinator_config
reload_ok = refl

nothing_removed : (detect_changes in_order before.routes after.routes).removed ≡ []
unfolding detect_changes for_each index_routes insert note_removed lookup str_eq route_key
    format_int digits classify route_equals
nothing_removed = refl

reload_serves_example :
    lookup (str "web:80") (view (handle_reload in_order calm running_manager).0)
    ≡ lookup (str "web:80") (index after.routes)
reload_serves_example =
    reload_serves in_order in_order-IsRange (start idle_manager).0
      (Runs.begun idle_manager before refl refl refl) calm after reload_ok (str "web:80")

running-routes : routes_of running_manager ≡ before.routes
running-routes = (start-IsSynced idle_manager before refl refl refl).2

all_stoppable :
    (k : Str)
    → In k (detect_changes in_order (routes_of running_manager) after.routes).removed
    → is_stoppable stuck running_manager k ≡ true
all_stoppable k i =
    let same = running-routes in
    let gone : (detect_changes in_order (routes_of running_manager) after.routes).removed ≡ [] =
      ap (λ rs. (detect_changes in_order rs after.routes).removed) same ∙ nothing_removed in
    absurd (rw gone at i)

handle_reload-serves_example :
    lookup (str "api:81") (view (handle_reload in_order stuck running_manager).0)
    ≡ lookup (str "api:81") (index after.routes)
handle_reload-serves_example =
    handle_reload-serves in_order in_order-IsRange stuck running_manager running-IsAllocated
      running-IsSynced after refl all_stoppable (str "api:81")

patch-detect_changes_example :
    lookup
      (str "web:80")
      (patch (detect_changes in_order before.routes after.routes) (index before.routes))
    ≡ lookup (str "web:80") (index after.routes)
patch-detect_changes_example =
    patch-detect_changes in_order in_order-IsRange before.routes after.routes (str "web:80")

modified_iff_example : In moved (detect_changes in_order before.routes after.routes).modified ↔ (
    (lookup (route_key moved) (index after.routes) ≡ some moved)
    × (o : Route) × (lookup (route_key moved) (index before.routes) ≡ some o)
    × (o ≢ moved))
modified_iff_example = modified_iff in_order in_order-IsRange before.routes after.routes moved
