-- ===== src/Health/Workers.antt =====
-- Which servers get a worker.
use mathlib.Core.Option.{some-injective}
use smaug.Prelude.{
  pos, ◌<ℤ◌, Str, is_empty, Bool, true, Bool-cases, List, [], ◌∷◌, ◌++◌, none, some, Option-cases,
  ◌≡◌, ◌↔◌, ◌⊎◌, inl, inr, refl, ap, ◌∙◌, In, In-append_cases, In-append_left, In-append_right,
  arith,
}
use smaug.Prelude.Map.{Map}
use smaug.Config.Types.{Server}
use smaug.Health.Manager.{
  HealthManager, ServerWorker, Started, new_worker_for, is_checked, add_workers, start_workers,
}

-- A worker for a server among the entries that has a health check.
abbrev pub Serves : Bool → Map Server → ServerWorker → Type 0
Serves metrics es w =
    (id : Str) × (server : Server) × In (id, server) es
    × (is_checked server ≡ true)
    × (w ≡ new_worker_for metrics id server)

module _ (metrics : Bool) where
  add_workers-In :
      (es : Map Server) (ws : List ServerWorker) (out : List ServerWorker)
      → add_workers metrics es ws ≡ some out
      → (w : ServerWorker) → In w out ↔ (In w ws ⊎ Serves metrics es w)
  unfolding add_workers
  add_workers-In [] ws out e w =
      let same = some-injective ws out e in
      (
        (λ i. inl (rw same i)),
        (λ c. elim c [ inl i ↦ rw (← same) i | inr (id, server, i, c, eq) ↦ absurd i ]),
      )
  add_workers-In ((id, server) ∷ es) ws out e w = elim (Bool-cases (is_checked server)) [
    | inr skipped ↦
        let (to, from) = add_workers-In es ws out (ground arith) w in
        (
          (λ i. elim (to i) [
            | inl old ↦ inl old
            | inr (j, s, i, c, eq) ↦ inr (j, s, inr i, c, eq)
          ]),
          (λ c. elim c [
            | inl old ↦ from (inl old)
            | inr (j, s, inl here, c, eq) ↦ ground arith
            | inr (j, s, inr i, c, eq) ↦ from (inr (j, s, i, c, eq))
          ]),
        )
    | inl checked ↦
        let new = new_worker_for metrics id server in
        let next : add_workers metrics es (ws ++ new ∷ []) ≡ some out =
          elim (Bool-cases (is_empty id)) [
            | inl nameless ↦ ground arith
            | inr named ↦ ground arith
          ] in
        let (to, from) = add_workers-In es (ws ++ new ∷ []) out next w in
        (
          (λ i. elim (to i) [
            | inl old ↦ elim (In-append_cases w ws (new ∷ []) old) [
              | inl older ↦ inl older
              | inr (inl here) ↦ inr (id, server, inl refl, checked, here)
              | inr (inr nowhere) ↦ absurd nowhere
            ]
            | inr (j, s, i, c, eq) ↦ inr (j, s, inr i, c, eq)
          ]),
          (λ c. elim c [
            | inl old ↦ from (inl (In-append_left w ws (new ∷ []) old))
            | inr (j, s, inl here, c, eq) ↦ from (
                inl (
                  In-append_right w ws (new ∷ [])
                    (inl (eq ∙ ap (λ (x : Str × Server). new_worker_for metrics x.0 x.1) here))))
            | inr (j, s, inr i, c, eq) ↦ from (inr (j, s, i, c, eq))
          ]),
        )
  ]

positive : (server : Server) → is_checked server ≡ true → pos 0 <ℤ server.health_check.interval
unfolding is_checked
positive server c = ground arith

module _ (range : Map Server → Map Server) (m m' : HealthManager)
    (complete : (e : Str × Server) → In e (range m.config.servers) ↔ In e m.config.servers)
    (fresh : m.workers ≡ []) (ok : start_workers range m ≡ Started.returned m' none) where
  started-workers : add_workers m.metrics (range m.config.servers) [] ≡ some m'.workers
  unfolding start_workers
  started-workers = elim (Bool-cases m.running) [
    | inl running ↦ absurd (ground arith)
    | inr idle ↦ elim (Option-cases (add_workers m.metrics (range m.config.servers) m.workers)) [
      | inl panics ↦ absurd (ground arith)
      | inr (ws, e) ↦ rw (← fresh) (ground arith)
    ]
  ]

  -- If the range meets exactly the entries of the map: a manager that had no workers and that Start starts has a worker for exactly the servers with
  -- an endpoint and a positive interval.
  workers_iff : (w : ServerWorker) → In w m'.workers ↔ Serves m.metrics m.config.servers w
  workers_iff w =
      let (to, from) =
        add_workers-In m.metrics (range m.config.servers) [] m'.workers started-workers w in
      (
        (λ i. elim (to i) [
          | inl nowhere ↦ absurd nowhere
          | inr (id, server, listed, c, eq) ↦ (id, server, (complete (id, server)).0 listed, c, eq)
        ]),
        (λ (id, server, listed, c, eq).
            from (inr (id, server, (complete (id, server)).1 listed, c, eq))),
      )

  -- No ticker is made with an interval that is not positive, on which Go panics.
  pub intervals_positive : (w : ServerWorker) → In w m'.workers → pos 0 <ℤ w.interval
  unfolding is_checked new_worker_for
  intervals_positive w i =
      let (id, server, listed, c, eq) = (workers_iff w).0 i in rw eq (positive server c)
