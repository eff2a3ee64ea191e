-- ===== src/Cmd/Run.antt =====
-- run (cmd/smaug/main.go): the parts in the order in which they are set up, and the deferred stops.
-- Whether a part that is there comes up is an argument.
use mathlib.Core.List.{append_assoc}
use smaug.Prelude.{
  Str, Bool, true, false, List, [], ◌∷◌, ◌++◌, map, none, some, ◌≡◌, ◌⊎◌, refl, sym, ap, ◌∙◌, inl,
  inr, if◌then◌else◌,
}
use smaug.Config.Types.{Config}
use smaug.Client.Sleep.{NetLib}
use smaug.Cmd.{init_idle_tracker, Senders, add_senders, no_senders}
use smaug.Cmd.Wake.{WakeOptions, init_wake_options}

-- What is started, and stopped by a deferred call.
pub data Part : Type 0 where
  config_manager health_manager idle_tracker route_manager sleep_coordinator : Part
  management_server metrics_server : Part

pub data Event : Type 0 where
  started stopped : Part → Event

-- Which of the calls that set up or start a part succeed.
pub record Starts : Type 0 where
  pub metrics_registry : Bool
  pub comes_up : Part → Bool

-- A part that is not configured is passed over.
pub data Setup : Type 0 where
  absent comes_up fails : Setup

abbrev pub setup_of : Bool → Setup
setup_of true = Setup.comes_up
setup_of false = Setup.fails

-- A part, the rest of run behind it, and its deferred stop; `true` is a nil error.
unfoldable pub set_up : Part → Setup → List Event × Bool → List Event × Bool
set_up p Setup.absent rest = rest
set_up p Setup.fails rest = ([], false)
set_up p Setup.comes_up (events, ok) = (Event.started p ∷ (events ++ Event.stopped p ∷ []), ok)

-- Without a route that sleeps there is no idle tracker.
unfoldable pub idle_setup : Config → Bool → Setup
idle_setup cfg ok = elim (init_idle_tracker cfg) [ none ↦ Setup.absent | some t ↦ setup_of ok ]

-- initSleepCoordinator
unfoldable pub sleep_setup : NetLib → Config → Bool → Setup
sleep_setup net cfg ok = elim (init_idle_tracker cfg) [
  | none ↦ Setup.absent
  | some t ↦ elim (add_senders net cfg cfg.routes no_senders) [
    | Senders.failed e ↦ Setup.fails
    | Senders.ready s ↦ elim s.senders [ [] ↦ Setup.absent | c ∷ cs ↦ setup_of ok ]
  ]
]

abbrev pub wake_ok : WakeOptions → Bool
wake_ok (WakeOptions.refused e) = false
wake_ok _ = true

module _ (parse_url : Str → Bool) (net : NetLib) where
  -- The set-up behind the health manager; a signal then ends the program.
  unfoldable pub run_parts : Config → Starts → List Event × Bool
  unfolding idle_setup sleep_setup set_up
  run_parts cfg s =
      if wake_ok (init_wake_options parse_url cfg)
      then set_up Part.idle_tracker (idle_setup cfg (s.comes_up Part.idle_tracker)) (
          set_up Part.route_manager (setup_of (s.comes_up Part.route_manager)) (
            set_up Part.sleep_coordinator (sleep_setup net cfg (s.comes_up Part.sleep_coordinator))
              (set_up Part.management_server
                (if cfg.settings.observability.health_check.enabled
                  then setup_of (s.comes_up Part.management_server)
                  else Setup.absent)
                (set_up Part.metrics_server
                  (if cfg.settings.observability.metrics.enabled
                    then setup_of (s.comes_up Part.metrics_server)
                    else Setup.absent)
                  ([], true)))))
      else ([], false)

  -- run: `cfg` is what the configuration manager has loaded.
  unfoldable pub run : Config → Starts → List Event × Bool
  unfolding run_parts set_up
  run cfg s =
      if s.metrics_registry
      then set_up Part.config_manager (setup_of (s.comes_up Part.config_manager))
          (set_up Part.health_manager (setup_of (s.comes_up Part.health_manager)) (run_parts cfg s))
      else ([], false)

-- The order of run.
abbrev pub part_order : List Part
part_order =
    Part.config_manager ∷ Part.health_manager ∷ Part.idle_tracker ∷ Part.route_manager
    ∷ Part.sleep_coordinator ∷ Part.management_server ∷ Part.metrics_server ∷ []

-- The first list is the second with some elements left out.
abbrev pub IsSublist : List Part → List Part → Type 0
IsSublist [] ys = Unit
IsSublist (x ∷ xs) [] = ⊥
IsSublist (x ∷ xs) (y ∷ ys) = ((x ≡ y) × IsSublist xs ys) ⊎ IsSublist (x ∷ xs) ys

abbrev pub reverse : List Part → List Part
reverse [] = []
reverse (x ∷ xs) = reverse xs ++ x ∷ []

-- Parts of a list are started in its order, and stopped in the reverse of the order.
abbrev pub IsNested : List Part → List Event → Type 0
IsNested order events =
    (ps : List Part) × IsSublist ps order
    × (events ≡ map Event.started ps ++ map Event.stopped (reverse ps))

IsSublist-skip : (y : Part) (xs ys : List Part) → IsSublist xs ys → IsSublist xs (y ∷ ys)
IsSublist-skip y [] ys h = tt
IsSublist-skip y (x ∷ xs) ys h = inr h

map-append :
    (ps qs : List Part)
    → map Event.stopped (ps ++ qs) ≡ map Event.stopped ps ++ map Event.stopped qs
map-append [] qs = refl
map-append (p ∷ ps) qs = ap (◌∷◌ (Event.stopped p)) (map-append ps qs)

nothing-IsNested : (order : List Part) → IsNested order []
nothing-IsNested order = ([], tt, refl)

set_up-IsNested :
    (p : Part) (setup : Setup) (order : List Part) (rest : List Event × Bool)
    → IsNested order rest.0
    → IsNested (p ∷ order) (set_up p setup rest).0
unfolding set_up
set_up-IsNested p Setup.absent order rest (ps, sub, e) = (ps, IsSublist-skip p ps order sub, e)
set_up-IsNested p Setup.fails order rest n = nothing-IsNested (p ∷ order)
set_up-IsNested p Setup.comes_up order (events, ok) (ps, sub, e) =
    let begun = map Event.started ps in
    let ended = map Event.stopped (reverse ps) in
    (
      p ∷ ps,
      inl (refl, sub),
      ap (◌∷◌ (Event.started p)) (
          ap (λ es. es ++ Event.stopped p ∷ []) e
          ∙ append_assoc begun ended (Event.stopped p ∷ [])
          ∙ ap (λ es. begun ++ es) (sym (map-append (reverse ps) (p ∷ [])))),
    )

if-IsNested :
    (b : Bool) (order : List Part) (result : List Event × Bool)
    → IsNested order result.0
    → IsNested order (if b then result else ([], false)).0
if-IsNested true order result n = n
if-IsNested false order result n = nothing-IsNested order

-- Whatever is configured and whatever fails to come up, run starts parts in its order (the
-- configuration manager, the health manager, the idle tracker, the routes, the sleep coordinator,
-- the servers for health and for metrics), and by its end has stopped exactly those that it has
-- started, in the reverse order.
pub run-IsNested :
    (parse_url : Str → Bool) (net : NetLib) (cfg : Config) (s : Starts)
    → IsNested part_order (run parse_url net cfg s).0
unfolding run run_parts
run-IsNested parse_url net cfg s = if-IsNested s.metrics_registry part_order _ (
    set_up-IsNested Part.config_manager _ _ _ (
      set_up-IsNested Part.health_manager _ _ _ (
        if-IsNested (wake_ok (init_wake_options parse_url cfg)) _ _ (
          set_up-IsNested Part.idle_tracker _ _ _ (
            set_up-IsNested Part.route_manager _ _ _ (
              set_up-IsNested Part.sleep_coordinator _ _ _ (
                set_up-IsNested Part.management_server _ _ _
                  (set_up-IsNested Part.metrics_server _ [] ([], true) (nothing-IsNested [])))))))))
