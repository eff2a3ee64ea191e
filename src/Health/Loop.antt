-- ===== src/Health/Loop.antt =====
-- internal/health/manager.go: the goroutine of one worker. What its select takes is a list of
-- events.
use smaug.Prelude.{ℤ, Time, List, [], ◌∷◌, ◌++◌, map, ◌≡◌, refl, ◌∙◌, ap}
use smaug.Health.Checker.{Shared, Request, Reply}
use smaug.Health.Manager.{ServerWorker, Step, perform_check, run_checks}

-- When a check is made, and what the client then returns within a given time.
pub record Moment : Type 0 where
  pub now : Time
  pub exchange : ℤ → Request → Reply

-- The two cases of the select of runWorker.
pub data WorkerEvent : Type 0 where
  ctx_done : WorkerEvent
  ticked : Moment → WorkerEvent

abbrev pub check_at : ServerWorker → Moment → Step
check_at worker t = record { worker = worker; now = t.now; exchange = t.exchange }

-- The loop of runWorker.
unfoldable pub worker_loop : ServerWorker → List WorkerEvent → Shared → Shared
worker_loop worker [] w = w
worker_loop worker (WorkerEvent.ctx_done ∷ es) w = w
worker_loop worker (WorkerEvent.ticked t ∷ es) w =
    worker_loop worker es (perform_check (check_at worker t) w).0

-- runWorker: a check comes before the loop.
unfoldable pub run_worker : ServerWorker → Moment → List WorkerEvent → Shared → Shared
unfolding worker_loop
run_worker worker first es w = worker_loop worker es (perform_check (check_at worker first) w).0

-- The checks that the loop makes.
abbrev pub loop_checks : ServerWorker → List WorkerEvent → List Step
loop_checks worker [] = []
loop_checks worker (WorkerEvent.ctx_done ∷ es) = []
loop_checks worker (WorkerEvent.ticked t ∷ es) = check_at worker t ∷ loop_checks worker es

worker_loop-checks :
    (worker : ServerWorker) (es : List WorkerEvent) (w : Shared)
    → worker_loop worker es w ≡ run_checks (loop_checks worker es) w
unfolding worker_loop run_checks
worker_loop-checks worker [] w = refl
worker_loop-checks worker (WorkerEvent.ctx_done ∷ es) w = refl
worker_loop-checks worker (WorkerEvent.ticked t ∷ es) w =
    worker_loop-checks worker es (perform_check (check_at worker t) w).0

until_done :
    (worker : ServerWorker) (ts : List Moment) (rest : List WorkerEvent)
    → loop_checks worker (map WorkerEvent.ticked ts ++ WorkerEvent.ctx_done ∷ rest)
      ≡ map (check_at worker) ts
until_done worker [] rest = refl
until_done worker (t ∷ ts) rest = ap (◌∷◌ (check_at worker t)) (until_done worker ts rest)

-- A worker checks its server once at its start and once for each tick before its context is done,
-- and not after it.
run_worker-checks :
    (worker : ServerWorker) (first : Moment) (ts : List Moment) (rest : List WorkerEvent)
    (w : Shared)
    → run_worker worker first (map WorkerEvent.ticked ts ++ WorkerEvent.ctx_done ∷ rest) w
      ≡ run_checks (map (check_at worker) (first ∷ ts)) w
unfolding run_worker run_checks
run_worker-checks worker first ts rest w =
    worker_loop-checks worker (map WorkerEvent.ticked ts ++ WorkerEvent.ctx_done ∷ rest)
      (perform_check (check_at worker first) w).0
    ∙ ap (λ ss. run_checks ss (perform_check (check_at worker first) w).0)
        (until_done worker ts rest)
