-- ===== src/Cmd/Recording.antt =====
-- Whether the requests of the routes reach an idle tracker.
use smaug.Prelude.{
  ◌<◌, ◌==◌, Str, false, List, [], ◌∷◌, none, some, ◌≡◌, inl, inr, refl, In, arith, count_if, Time,
}
use smaug.Config.Types.{Config, Route, Server}
use smaug.Proxy.IdleTracker.{IdleTracker, record_activity, new_idle_tracker}
use smaug.Proxy.Handler.{Recorder, Handler, Served, as_recorder, call_recorder, serve_route}
use smaug.Cmd.{sleeping_server, has_sleep, init_idle_tracker, init_recorder}

module _ (cfg : Config) where
  none_sleep :
      (rs : List Route)
      → ((route : Route) → In route rs → sleeping_server cfg route ≡ none)
      → count_if (has_sleep cfg) rs ≡ 0
  unfolding count_if
  none_sleep [] awake = refl
  none_sleep (route ∷ rs) awake =
      let rest = none_sleep rs (λ r i. awake r (inr i)) in ground (arith, awake route (inl refl))

  some_sleep :
      (route : Route) (server : Server) (rs : List Route)
      → In route rs
      → sleeping_server cfg route ≡ some server
      → 0 < count_if (has_sleep cfg) rs
  unfolding count_if
  some_sleep route server [] i s = absurd i
  some_sleep route server (r ∷ rs) (inl e) s =
      let same : sleeping_server cfg r ≡ some server = rw (← e) s in ground (arith, same)
  some_sleep route server (r ∷ rs) (inr i) s =
      let rest = some_sleep route server rs i s in ground arith

  -- If no route has a server with Sleep-on-LAN enabled, every request of every route panics: the
  -- nil tracker is attached as a recorder that is not nil.
  pub no_sleep-panics :
      ((route : Route) → In route cfg.routes → sleeping_server cfg route ≡ none)
      → (h : Handler) (route_id : Str) (now : Time) (t : IdleTracker)
      → serve_route (init_recorder cfg) h route_id now t ≡ none
  unfolding serve_route init_recorder init_idle_tracker as_recorder call_recorder
  no_sleep-panics awake h route_id now t =
      let unused = none_sleep cfg.routes awake in rw unused refl

  -- If some route has such a server, every request of every route is answered and is recorded as
  -- activity of the route.
  pub sleep-records :
      (route : Route) (server : Server)
      → In route cfg.routes
      → sleeping_server cfg route ≡ some server
      → (h : Handler) (route_id : Str) (now : Time) (t : IdleTracker)
      → (s : Served) × (serve_route (init_recorder cfg) h route_id now t
          ≡ some (record_activity t route_id now, s))
  unfolding serve_route init_recorder init_idle_tracker as_recorder call_recorder new_idle_tracker
  sleep-records route server i sleeps h route_id now t =
      let used = some_sleep route server cfg.routes i sleeps in
      let set_up : init_recorder cfg ≡ Recorder.recording =
        let busy : (count_if (has_sleep cfg) cfg.routes == 0) ≡ false = ground arith in
        rw busy refl in
      rw set_up (_, refl)
