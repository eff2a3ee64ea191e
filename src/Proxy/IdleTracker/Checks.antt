-- ===== src/Proxy/IdleTracker/Checks.antt =====
-- What one round of checkIdleRoutes does, for every order of the routes.
use mathlib.Core.List.{append_assoc, append-nil}
use smaug.Prelude.{
  ℕ, suc, ◌-◌, ◌≤◌, ◌<◌, ltb, Time, Str, str_eq, str_eq_iff, contains, Bool, true, false,
  Bool-cases, List, [], ◌∷◌, ◌++◌, Option, none, some, Option-cases, ◌≡◌, ◌⊎◌, inl, inr, refl, sym,
  ap, ◌∙◌, In, Distinct, keep, keep-congr, take, take-nil, length, length-append, arith,
  if◌then◌else◌,
}
use smaug.Prelude.Map.{lookup, lookup-insert}
use smaug.Proxy.IdleTracker.{
  RouteEntry, IdleTracker, sleep_trigger_buf_size, is_idle, emit, check_route, check_idle_routes,
}

-- A route that the round finds idle.
abbrev pub is_due : Time → IdleTracker → Str → Bool
is_due now t id = elim (lookup id t.routes) [ none ↦ false | some e ↦ is_idle now e ]

abbrev pub room : IdleTracker → ℕ
room t = sleep_trigger_buf_size - length t.sleep_ch

-- The routes that are triggered: the idle ones, in the order of the range, as far as there is room.
abbrev pub triggered : Time → List Str → IdleTracker → List Str
triggered now order t = take (room t) (keep (is_due now t) order)

abbrev pub seen_at : Time → Option RouteEntry → Option RouteEntry
seen_at now none = none
seen_at now (some e) = some (record e { last_seen = now })

module _ (now : Time) where
  check_route-idle :
      (t : IdleTracker) (id : Str) → is_due now t id ≡ false → check_route now t id ≡ t
  unfolding check_route
  check_route-idle t id h = ground arith

  check_route-full :
      (t : IdleTracker) (id : Str)
      → sleep_trigger_buf_size ≤ length t.sleep_ch
      → check_route now t id ≡ t
  unfolding check_route emit
  check_route-full t id h = ground arith

  check_route-sent :
      (t : IdleTracker) (id : Str)
      → is_due now t id ≡ true
      → length t.sleep_ch < sleep_trigger_buf_size
      → ((check_route now t id).sleep_ch ≡ t.sleep_ch ++ id ∷ [])
        × ((j : Str)
            → lookup j (check_route now t id).routes
              ≡ (if str_eq id j then seen_at now (lookup j t.routes) else lookup j t.routes))
  unfolding check_route emit
  check_route-sent t id h r = elim (Option-cases (lookup id t.routes)) [
    | inl n ↦ absurd (ground arith)
    | inr (e, f) ↦ (
      ground arith,
      λ j.
          ground
            (arith, str_eq_iff id j, lookup-insert id j (record e { last_seen = now }) t.routes),
    )
  ]

  due_elsewhere :
      (t : IdleTracker) (id : Str) (rest : List Str)
      → ¬ In id rest
      → is_due now t id ≡ true
      → length t.sleep_ch < sleep_trigger_buf_size
      → keep (is_due now (check_route now t id)) rest ≡ keep (is_due now t) rest
  due_elsewhere t id rest new h r =
      keep-congr (is_due now (check_route now t id)) (is_due now t) rest λ a m.
        let other : (id ≡ a → ⊥) = (λ e. new (rw e m)) in
        let same = (check_route-sent t id h r).1 a in ground (arith, str_eq_iff id a)

  -- One step of the round: the route is triggered and leaves one place less, or nothing happens.
  round_step :
      (t : IdleTracker) (id : Str) (rest : List Str)
      → ¬ In id rest
      → ((check_route now t id ≡ t) × (triggered now (id ∷ rest) t ≡ triggered now rest t))
        ⊎ ((is_due now t id ≡ true)
            × (length t.sleep_ch < sleep_trigger_buf_size)
            × (triggered now (id ∷ rest) t ≡ id ∷ triggered now rest (check_route now t id)))
  unfolding keep
  round_step t id rest new = elim (Bool-cases (is_due now t id)) [
    | inr idle ↦ inl (check_route-idle t id idle, rw idle)
    | inl due ↦ elim (Bool-cases (ltb (length t.sleep_ch) sleep_trigger_buf_size)) [
      | inr full ↦
          let none_left : room t ≡ 0 = ground arith in
          inl (check_route-full t id (ground arith), rw (due, none_left))
      | inl free ↦
          let r : length t.sleep_ch < sleep_trigger_buf_size = ground arith in
          let sent = (check_route-sent t id due r).0 in
          let less : room t ≡ suc (room (check_route now t id)) =
            omega (arith, ap length sent, length-append t.sleep_ch (id ∷ [])) in
          inr (
            due,
            r,
            rw (due, less)
                (ap (λ l. id ∷ take (room (check_route now t id)) l)
                  (sym (due_elsewhere t id rest new due r))),
          )
    ]
  ]

  -- The channel after a round that meets each route once: what it held, then every idle route in the order of the range until
  -- the channel is full.
  pub check_idle_routes-sleep_ch :
      (order : List Str) (t : IdleTracker)
      → Distinct order
      → (check_idle_routes now order t).sleep_ch ≡ t.sleep_ch ++ triggered now order t
  unfolding check_idle_routes
  check_idle_routes-sleep_ch [] t d =
      unfold keep in rw (take-nil (room t)) (sym (append-nil t.sleep_ch))
  check_idle_routes-sleep_ch (id ∷ rest) t d =
      let rec = check_idle_routes-sleep_ch rest (check_route now t id) d.1 in
      elim (round_step t id rest d.0) [
        | inl (same, fired) ↦ rw fired (
            ap (λ s. (check_idle_routes now rest s).sleep_ch) same
            ∙ check_idle_routes-sleep_ch rest t d.1)
        | inr (due, r, fired) ↦
            let sent = (check_route-sent t id due r).0 in
            rw fired (rec ∙ rw sent (append_assoc t.sleep_ch (id ∷ []) _))
      ]

  -- The routes after a round that meets each route once: those that were triggered count as seen now, the others, also those
  -- whose trigger found no place, are as they were.
  pub check_idle_routes-routes :
      (order : List Str) (t : IdleTracker)
      → Distinct order
      → (j : Str)
      → lookup j (check_idle_routes now order t).routes ≡ (
          if contains j (triggered now order t)
          then seen_at now (lookup j t.routes)
          else lookup j t.routes)
  unfolding check_idle_routes contains
  check_idle_routes-routes [] t d j = unfold keep in rw (take-nil (room t)) refl
  check_idle_routes-routes (id ∷ rest) t d j =
      let rec = check_idle_routes-routes rest (check_route now t id) d.1 j in
      elim (round_step t id rest d.0) [
        | inl (same, fired) ↦ rw fired (
            ap (λ s. lookup j (check_idle_routes now rest s).routes) same
            ∙ check_idle_routes-routes rest t d.1 j)
        | inr (due, r, fired) ↦
            let sent = (check_route-sent t id due r).1 j in
            rw fired (ground (arith, rec, sent, str_eq_iff id j, str_eq_iff j id))
      ]
