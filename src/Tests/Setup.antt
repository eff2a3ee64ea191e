-- ===== src/Tests/Setup.antt =====
-- Setting the program up.
use smaug.Prelude.{
  Str, true, List, ◌∷◌, none, some, ◌≢◌, refl, arith, contains, contains_iff, if◌then◌else◌,
  Bool-cases, inl, inr,
}
use smaug.Client.Gwaihir.{ConfigError}
use smaug.Cmd.Wake.{WakeOptions, init_wake_options}
use smaug.Cmd.Run.{Starts, IsNested, part_order, run, run-IsNested}
use smaug.Infrastructure.Metrics.{Prometheus}
use smaug.Infrastructure.Metrics.Registering.{IsRegistering}
use smaug.Tests.Data.{before}
use smaug.Tests.Sleeping.{net}

abbrev all_up : Starts
all_up = record { metrics_registry = true; comes_up = λ p. true }

run-IsNested_example : IsNested part_order (run (λ s. true) net before all_up).0
run-IsNested_example = run-IsNested (λ s. true) net before all_up

without_url : (e : ConfigError) → init_wake_options (λ s. true) before ≢ WakeOptions.refused e
unfolding init_wake_options
without_url e h = ground arith

-- A registry that is the list of the names.
abbrev names : Prometheus (List Str)
names = record {
  register = λ n s. if contains n s then none else some (n ∷ s);
  inc = λ n labels s. some s;
  observe = λ n labels s. some s;
  set = λ n labels v s. some s;
}

names-IsRegistering : IsRegistering names (λ s. s)
names-IsRegistering = record {
  fails = λ n s h. let known = (contains_iff n s).1 h in rw known refl;
  adds = λ n s absent. elim (Bool-cases (contains n s)) [
    | inl known ↦ absurd (absent ((contains_iff n s).0 known))
    | inr new ↦ (n ∷ s, rw new refl, refl)
  ];
}
