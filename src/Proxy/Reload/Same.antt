-- ===== src/Proxy/Reload/Same.antt =====
-- When detectChanges (internal/proxy/reload.go) finds no difference.
use smaug.Prelude.{
  Str, Bool-cases, List, [], ◌∷◌, Option-cases, some, ◌≡◌, ◌↔◌, inl, inr, refl, ◌∙◌, sym, ap, arith,
  In,
}
use smaug.Prelude.Map.{Map, lookup}
use smaug.Config.Types.{Route}
use smaug.Proxy.Reload.{IsRange, RouteChanges, route_key, route_equals, detect_changes}
use smaug.Proxy.Reload.Index.{index, index-IsIndex}
use smaug.Proxy.Reload.Diff.{route_equals_iff, added_iff, modified_iff, removed_iff}

is_empty_list : {A : Type 0} (xs : List A) → ((x : A) → ¬ In x xs) → xs ≡ []
is_empty_list [] none_in = refl
is_empty_list (x ∷ xs) none_in = absurd (none_in x (inl refl))

-- Nothing is to be added, removed or modified.
abbrev pub IsSame : RouteChanges → Type 0
IsSame ch = (ch.added ≡ []) × (ch.removed ≡ []) × (ch.modified ≡ [])

module _ (range : Map Route → Map Route) (r : IsRange range) (old new : List Route) where
  abbrev SameIndex : Type 0
  SameIndex = (k : Str) → lookup k (index old) ≡ lookup k (index new)

  same_index-IsSame : SameIndex → IsSame (detect_changes range old new)
  same_index-IsSame same = (
    is_empty_list _ (λ a h.
        let (held, absent) = (added_iff range r old new a).0 h in
        let s = same (route_key a) in ground arith),
    is_empty_list _ (λ k h.
        let (a, held, absent) = (removed_iff range r old new k).0 h in
        let s = same k in ground arith),
    is_empty_list _ (λ a h.
        let (held, o, before, differs) = (modified_iff range r old new a).0 h in
        let s = same (route_key a) in ground arith),
  )

  nothing-In : {A : Type 0} (x : A) (xs : List A) → xs ≡ [] → ¬ In x xs
  nothing-In x xs e h = rw e at h

  IsSame-lookup : IsSame (detect_changes range old new) → SameIndex
  IsSame-lookup (no_added, no_removed, no_modified) k = elim (Option-cases (lookup k (index new))) [
    | inl absent ↦ elim (Option-cases (lookup k (index old))) [
      | inl gone ↦ gone ∙ sym absent
      | inr (a, held) ↦
          absurd (nothing-In k _ no_removed ((removed_iff range r old new k).1 (a, held, absent)))
    ]
    | inr (a, held) ↦
        let key = (index-IsIndex new).keyed k a held in
        elim (Option-cases (lookup k (index old))) [
          | inl gone ↦
              absurd
                (nothing-In a _ no_added ((added_iff range r old new a).1 (rw key (held, gone))))
          | inr (o, before) ↦ elim (Bool-cases (route_equals o a)) [
            | inl equal ↦ before ∙ ap some ((route_equals_iff o a).0 equal) ∙ sym held
            | inr differs ↦
                let other : (o ≡ a → ⊥) = (λ e. ground (arith, route_equals_iff o a)) in
                absurd (
                  nothing-In a _ no_modified
                    ((modified_iff range r old new a).1 (rw key (held, o, before, other))))
          ]
        ]
  ]

  -- No difference is found exactly if the old and the new routes have the same keys and the same
  -- route for each key.
  pub no_changes_iff : IsSame (detect_changes range old new) ↔ SameIndex
  no_changes_iff = (IsSame-lookup, same_index-IsSame)
