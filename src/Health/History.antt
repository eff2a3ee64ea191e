-- ===== src/Health/History.antt =====
-- What the store holds after any interleaving of the workers' checks.
use smaug.Prelude.{
  Str, str_eq, str_eq_iff, List, [], ◌∷◌, ◌++◌, some, ◌≡◌, refl, ap, ◌∙◌, All, arith, if◌then◌else◌,
}
use smaug.Health.Store.{ServerHealthStatus, get}
use smaug.Health.Checker.{Shared, check_health, status_of}
use smaug.Health.Manager.{Step, perform_check, run_checks, check_timeout}
use smaug.Health.Verdicts.{check-store}

-- The status that a step's check comes to.
abbrev pub status_found : Step → ServerHealthStatus
status_found s =
    status_of s.worker.checker s.now
      (check_health (s.exchange (check_timeout s.worker)) s.worker.checker.checker)

abbrev pub Checks : Step → Str → Type 0
Checks s k = s.worker.checker.server_id ≡ k

perform_check-store :
    (s : Step) (w : Shared) (k : Str)
    → get (perform_check s w).0.store k
      ≡ (if str_eq s.worker.checker.server_id k then some (status_found s) else get w.store k)
unfolding perform_check
perform_check-store s w k =
    check-store (s.exchange (check_timeout s.worker)) s.now s.worker.checker w k

run_checks-append :
    (before after : List Step) (w : Shared)
    → run_checks (before ++ after) w ≡ run_checks after (run_checks before w)
unfolding run_checks
run_checks-append [] after w = refl
run_checks-append (s ∷ before) after w = run_checks-append before after (perform_check s w).0

-- Checks of other servers leave what is known of a server alone.
unchecked :
    (ss : List Step) (w : Shared) (k : Str)
    → All (λ s. ¬ Checks s k) ss
    → get (run_checks ss w).store k ≡ get w.store k
unfolding run_checks
unchecked [] w k others = refl
unchecked (s ∷ ss) w k (other, others) =
    unchecked ss (perform_check s w).0 k others
    ∙ ground (arith, perform_check-store s w k, str_eq_iff s.worker.checker.server_id k)

-- However the workers' checks interleave, the store holds for a server what the last check of this
-- server came to.
pub last_check_holds :
    (before : List Step) (s : Step) (after : List Step) (w : Shared) (k : Str)
    → Checks s k
    → All (λ t. ¬ Checks t k) after
    → get (run_checks (before ++ s ∷ after) w).store k ≡ some (status_found s)
unfolding run_checks
last_check_holds before s after w k own others =
    ap (λ v. get v.store k) (run_checks-append before (s ∷ after) w)
    ∙ unchecked after (perform_check s (run_checks before w)).0 k others
    ∙ ground (
      arith,
      perform_check-store s (run_checks before w) k,
      str_eq_iff s.worker.checker.server_id k,
    )
