-- ===== src/Infrastructure/Metrics/Registering.antt =====
-- New registers each collector once: the names do not collide.
use smaug.Prelude.{
  Str, str, str_eq, Bool, true, false, not, ◌&&◌, List, [], ◌∷◌, ◌++◌, Option, none, some, ◌≡◌, inl,
  inr, refl, sym, ap, ◌∙◌, arith, In, contains, contains_iff, Option-cases,
}
use smaug.Infrastructure.Metrics.{
  Prometheus, register_all, and_then, new_registry, request_names, power_names, config_names,
  gwaihir_names,
}

abbrev pub all_names : List Str
all_names = request_names ++ power_names ++ config_names ++ gwaihir_names

-- What is documented of Register: it fails exactly for a name that is registered already, and it
-- registers its name and nothing else.
pub record IsRegistering {S : Type 0} (p : Prometheus S) (registered : S → List Str) : Type 0 where
  pub fails : (n : Str) (s : S) → In n (registered s) → p.register n s ≡ none
  pub adds :
      (n : Str) (s : S)
      → ¬ In n (registered s)
      → (t : S) × (p.register n s ≡ some t) × (registered t ≡ n ∷ registered s)

abbrev reversed_onto : List Str → List Str → List Str
reversed_onto [] acc = acc
reversed_onto (n ∷ ns) acc = reversed_onto ns (n ∷ acc)

-- New names register one after the other.
abbrev IsNewTo : List Str → List Str → Type 0
IsNewTo [] acc = Unit
IsNewTo (n ∷ ns) acc = (¬ In n acc) × IsNewTo ns (n ∷ acc)

unfoldable all_new : List Str → List Str → Bool
all_new [] acc = true
all_new (n ∷ ns) acc = not (contains n acc) && all_new ns (n ∷ acc)

all_new-IsNewTo : (ns acc : List Str) → all_new ns acc ≡ true → IsNewTo ns acc
unfolding all_new
all_new-IsNewTo [] acc e = tt
all_new-IsNewTo (n ∷ ns) acc e =
    let absent : contains n acc ≡ false = ground arith in
    (λ h. ground (arith, contains_iff n acc), all_new-IsNewTo ns (n ∷ acc) (ground arith))

names_all_new : all_new all_names [] ≡ true
unfolding all_new contains str_eq
names_all_new = refl

names_new : IsNewTo all_names []
names_new = all_new-IsNewTo all_names [] names_all_new

module _ {S : Type 0} (p : Prometheus S) (registered : S → List Str)
    (law : IsRegistering p registered) where
  register_all-new :
      (ns : List Str) (s : S)
      → IsNewTo ns (registered s)
      → (t : S) × (register_all p ns s ≡ some t) × (registered t ≡ reversed_onto ns (registered s))
  unfolding register_all
  register_all-new [] s fresh = (s, refl, refl)
  register_all-new (n ∷ ns) s (absent, fresh) =
      let (t, e, r) = law.adds n s absent in
      let (u, e', r') = register_all-new ns t (rw r fresh) in
      (u, rw (register_all, e) e', r' ∙ ap (reversed_onto ns) r)

  register_all-append :
      (ns ms : List Str) (s : S) → register_all p (ns ++ ms) s ≡ and_then p (register_all p ns s) ms
  unfolding register_all
  register_all-append [] ms s = refl
  register_all-append (n ∷ ns) ms s = elim (Option-cases (p.register n s)) [
    | inl e ↦ rw (register_all, e) refl
    | inr (t, e) ↦ rw (register_all, e) (register_all-append ns ms t)
  ]

  and_then-append :
      (o : Option S) (ns ms : List Str) → and_then p o (ns ++ ms) ≡ and_then p (and_then p o ns) ms
  and_then-append none ns ms = refl
  and_then-append (some s) ns ms = register_all-append ns ms s

  new_registry-all : (s : S) → new_registry p s ≡ register_all p all_names s
  unfolding new_registry
  new_registry-all s =
      let first = register_all p request_names s in
      sym (
        register_all-append request_names (power_names ++ config_names ++ gwaihir_names) s
        ∙ and_then-append first power_names (config_names ++ gwaihir_names)
        ∙ and_then-append (and_then p first power_names) config_names gwaihir_names)

  first_fails :
      (n : Str) (ns : List Str) (s : S) → p.register n s ≡ none → register_all p (n ∷ ns) s ≡ none
  first_fails n ns s e = unfold register_all in rw (register_all, e) refl

  -- On a Prometheus registry in which nothing is registered New succeeds, and a second New on the
  -- same one fails, provided that Register fails exactly for a name that is registered already.
  new_registry-once :
      (s : S)
      → registered s ≡ []
      → (t : S) × (new_registry p s ≡ some t) × (new_registry p t ≡ none)
  new_registry-once s fresh =
      let (t, e, r) = register_all-new all_names s (rw fresh names_new) in
      let taken : In (str "smaug_requests_total") (registered t) =
        rw (r, fresh) (inr (inr (inr (inr (inr (inr (inr (inr (inr (inr (inl refl))))))))))) in
      (
        t,
        new_registry-all s ∙ e,
        new_registry-all t ∙ first_fails (str "smaug_requests_total") _ t (law.fails _ t taken),
      )
