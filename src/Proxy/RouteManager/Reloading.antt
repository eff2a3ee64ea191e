-- ===== src/Proxy/RouteManager/Reloading.antt =====
-- What a reload leaves behind in the map of routes.
use smaug.Prelude.{
  Str, true, false, Bool-cases, List, [], ◌∷◌, ◌++◌, map, some, ◌≡◌, inl, inr, sym, ◌∙◌, keep, In,
  In-keep, keep-In, In-append_left, arith,
}
use smaug.Prelude.Map.{Map, lookup, delete, lookup-delete}
use smaug.Config.Types.{Config, Route}
use smaug.Proxy.Reload.{RouteChanges, route_key, IsRange, detect_changes}
use smaug.Proxy.Reload.Index.{index}
use smaug.Proxy.Reload.Patch.{insert_all, delete_all, patch-partial}
use smaug.Proxy.RouteManager.Listeners.{RouteManager, World}
use smaug.Proxy.RouteManager.Changes.{
  stop_all, cleanup_stopped_routes, apply_route_changes, routes_of, handle_reload, no_difference,
}
use smaug.Proxy.RouteManager.Stopping.{
  view, IsAllocated, is_stoppable, stop_all-done, stop_all-SameRoutes, stop_all-clean, view-cleanup,
  cleanup-IsAllocated, SameRoutes-IsAllocated, SameRoutes-view,
}
use smaug.Proxy.RouteManager.Starting.{view-start_all, start_all-clean, insert_all-congr}

-- The map of routes holds, key by key, the routes that the list of routes gives.
abbrev pub IsSynced : RouteManager → Type 0
IsSynced m = (k : Str) → lookup k (view m) ≡ lookup k (index (routes_of m))

delete_all-congr :
    (ks : List Str) (m n : Map Route)
    → ((k : Str) → lookup k m ≡ lookup k n)
    → (k : Str) → lookup k (delete_all ks m) ≡ lookup k (delete_all ks n)
unfolding delete_all
delete_all-congr [] m n same k = same k
delete_all-congr (j ∷ ks) m n same k =
    delete_all-congr ks (delete j m) (delete j n)
      (λ i. rw (lookup-delete j i m, lookup-delete j i n, same i)) k

module _ (w : World) (ch : RouteChanges) (m : RouteManager) (a : IsAllocated m) where
  abbrev to_stop : List Str
  to_stop = ch.removed ++ map route_key ch.modified

  -- The keys that the reload can stop go, and the added and the modified routes come.
  view-apply_route_changes :
      (k : Str)
      → lookup k (view (apply_route_changes w ch m).0)
        ≡ lookup k (
            insert_all
              (ch.added ++ ch.modified)
              (delete_all (keep (is_stoppable w m) to_stop) (view m)))
  unfolding apply_route_changes
  view-apply_route_changes k =
      let stopped = stop_all w to_stop m [] [] in
      let m1 = stopped.0 in
      let same = stop_all-SameRoutes w to_stop m [] [] in
      let m2 = cleanup_stopped_routes stopped.1 m1 in
      let done = stop_all-done w to_stop m [] [] in
      let allocated = cleanup-IsAllocated stopped.1 m1 (SameRoutes-IsAllocated same a) in
      view-start_all w (ch.added ++ ch.modified) m2 stopped.2 allocated k
      ∙ (rw (view-cleanup stopped.1 m1, done)
          (insert_all-congr (ch.added ++ ch.modified)
            (delete_all (keep (is_stoppable w m) to_stop) (view m1))
            (delete_all (keep (is_stoppable w m) to_stop) (view m))
            (delete_all-congr (keep (is_stoppable w m) to_stop) (view m1) (view m)
              (λ j. SameRoutes-view j same))
            k))

  apply_route_changes-clean :
      (apply_route_changes w ch m).1 ≡ [] → (k : Str) → In k to_stop → is_stoppable w m k ≡ true
  unfolding apply_route_changes
  apply_route_changes-clean h =
      let stopped = stop_all w to_stop m [] [] in
      (stop_all-clean w to_stop m [] [] (
        start_all-clean w (ch.added ++ ch.modified) (cleanup_stopped_routes stopped.1 stopped.0)
          stopped.2 h)).1

module _ (range : Map Route → Map Route) (r : IsRange range) (w : World) (m : RouteManager)
    (a : IsAllocated m) (s : IsSynced m) (cfg : Config) (c : m.config ≡ some cfg) where
  abbrev ch : RouteChanges
  ch = detect_changes range (routes_of m) cfg.routes

  reload_skips : no_difference ch ≡ true → handle_reload range w m ≡ (m, [])
  unfolding handle_reload
  reload_skips h = simp (handle_reload, c, h)

  reload_applies : no_difference ch ≡ false → handle_reload range w m ≡ apply_route_changes w ch m
  unfolding handle_reload
  reload_applies h = simp (handle_reload, c, h)

  lists_empty : no_difference ch ≡ true → (ch.added ≡ []) × (ch.modified ≡ [])
  lists_empty h = ground arith

  none_removed : no_difference ch ≡ true → (k : Str) → ¬ In k ch.removed
  none_removed h k = let e : ch.removed ≡ [] = ground arith in rw e (λ i. i)

  unpatched :
      (added modified : List Route) (k : Str)
      → added ≡ []
      → modified ≡ []
      → lookup k (insert_all (added ++ modified) (delete_all [] (view m))) ≡ lookup k (view m)
  unfolding insert_all delete_all
  unpatched added modified k e f = rw (e, f)

  -- From a state whose map of routes is that of its list and holds allocated listeners, and provided
  -- that every removed route can be stopped, the reload leaves the map of routes with the
  -- routes of the new configuration, key by key, even if a modified route cannot be stopped or a
  -- route cannot be started.
  pub handle_reload-serves :
      ((k : Str) → In k ch.removed → is_stoppable w m k ≡ true)
      → (k : Str) → lookup k (view (handle_reload range w m).0) ≡ lookup k (index cfg.routes)
  handle_reload-serves stoppable k = elim (Bool-cases (no_difference ch)) [
    | inl none_changed ↦
        let (no_added, no_modified) = lists_empty none_changed in
        let skips = reload_skips none_changed in
        rw skips (
          sym (unpatched ch.added ch.modified k no_added no_modified)
          ∙ patch-partial range r (routes_of m) cfg.routes (view m) [] s (λ j i. absurd i)
              (λ j i. absurd (none_removed none_changed j i)) k)
    | inr changed ↦
        let applies = reload_applies changed in
        rw applies (
          view-apply_route_changes w ch m a k
          ∙ patch-partial range r (routes_of m) cfg.routes (view m)
              (keep (is_stoppable w m) (to_stop w ch m a)) s
              (λ j i. (In-keep (is_stoppable w m) j (to_stop w ch m a) i).0)
              (λ j i.
                keep-In (is_stoppable w m) j (to_stop w ch m a)
                  (In-append_left j ch.removed (map route_key ch.modified) i) (stoppable j i))
              k)
  ]

  -- From such a state, a reload that reports no error leaves the map of routes with exactly the routes of the new
  -- configuration, key by key.
  pub handle_reload-ok :
      (handle_reload range w m).1 ≡ []
      → (k : Str) → lookup k (view (handle_reload range w m).0) ≡ lookup k (index cfg.routes)
  handle_reload-ok ok = handle_reload-serves λ k i. elim (Bool-cases (no_difference ch)) [
    | inl none_changed ↦ absurd (none_removed none_changed k i)
    | inr changed ↦
        let applies = reload_applies changed in
        apply_route_changes-clean w ch m a (rw applies at ok) k
          (In-append_left k ch.removed (map route_key ch.modified) i)
  ]
