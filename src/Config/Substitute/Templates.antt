-- ===== src/Config/Substitute/Templates.antt =====
-- internal/config/substitute.go on texts that are written as templates.
use mathlib.Core.List.{append_assoc}
use smaug.Prelude.{
  ℕ, zero, suc, ◌+◌, ◌-◌, ◌==◌, Str, is_empty, Bool, true, false, List, [], ◌∷◌, ◌++◌, Option, none,
  some, ◌≡◌, refl, ap, ◌∙◌, arith, length, length-append, sym, All,
}
use smaug.Config.Substitute.{
  span, after_span, ends_name, ends_default, Match, match_close, match_dash, match_end, match_name,
  match_brace, match_at, replacement, substitute_from, substitute_env,
}

-- A template: text and the two forms of a reference.
pub data Piece : Type 0 where
  text : Str → Piece
  variable : Str → Piece
  with_default : Str → Str → Piece

-- A piece as it is written in front of the rest of the text.
unfoldable pub write : Piece → Str → Str
write (Piece.text t) s = t ++ s
write (Piece.variable n) s = b'$' ∷ b'{' ∷ (n ++ b'}' ∷ s)
write (Piece.with_default n d) s = b'$' ∷ b'{' ∷ (n ++ b':' ∷ b'-' ∷ (d ++ b'}' ∷ s))

unfoldable pub written : List Piece → Str
unfolding write
written [] = []
written (p ∷ ps) = write p (written ps)

-- Text without a dollar, names without a colon and a brace, defaults without a brace.
abbrev pub IsPiece : Piece → Type 0
IsPiece (Piece.text t) = All (λ c. (c == b'$') ≡ false) t
IsPiece (Piece.variable n) = (is_empty n ≡ false) × All (λ c. ends_name c ≡ false) n
IsPiece (Piece.with_default n d) =
    (is_empty n ≡ false) × All (λ c. ends_name c ≡ false) n × All (λ c. ends_default c ≡ false) d

abbrev or_value : Option Str → Str → Str
or_value none d = d
or_value (some v) d = v

-- What a piece stands for.
unfoldable pub expand : (Str → Option Str) → Piece → Str
expand env (Piece.text t) = t
expand env (Piece.variable n) = or_value (env n) []
expand env (Piece.with_default n d) = or_value (env n) d

unfoldable pub expanded : (Str → Option Str) → List Piece → Str
unfolding expand
expanded env [] = []
expanded env (p ∷ ps) = expand env p ++ expanded env ps

module _ (stop : ℕ → Bool) where
  span-append :
      (xs : Str) (c : ℕ) (s : Str)
      → All (λ x. stop x ≡ false) xs
      → stop c ≡ true
      → span stop (xs ++ c ∷ s) ≡ xs
  unfolding span
  span-append [] c s a h = rw h refl
  span-append (x ∷ xs) c s a h = rw a.0 (ap (◌∷◌ x) (span-append xs c s a.1 h))

  after_span-append :
      (xs : Str) (c : ℕ) (s : Str)
      → All (λ x. stop x ≡ false) xs
      → stop c ≡ true
      → after_span stop (xs ++ c ∷ s) ≡ c ∷ s
  unfolding after_span
  after_span-append [] c s a h = rw h refl
  after_span-append (x ∷ xs) c s a h = rw a.0 (after_span-append xs c s a.1 h)

-- The matcher finds a reference that is written out.
match_at-variable :
    (n s : Str)
    → IsPiece (Piece.variable n)
    → match_at (write (Piece.variable n) s)
      ≡ some (record { var_name = n; default_value = []; size = 2 + length n + 1 })
unfolding match_at match_brace match_name match_end write
match_at-variable n s (named, a) =
    rw (span-append ends_name n b'}' s a refl, after_span-append ends_name n b'}' s a refl, named)
      refl

match_at-with_default :
    (n d s : Str)
    → IsPiece (Piece.with_default n d)
    → match_at (write (Piece.with_default n d) s)
      ≡ some (record { var_name = n; default_value = d; size = 2 + length n + 2 + length d + 1 })
unfolding match_at match_brace match_name match_end match_dash match_close write
match_at-with_default n d s (named, a, b) =
    rw
      (
        span-append ends_name n b':' (b'-' ∷ (d ++ b'}' ∷ s)) a refl,
        after_span-append ends_name n b':' (b'-' ∷ (d ++ b'}' ∷ s)) a refl,
        named,
        span-append ends_default d b'}' s b refl,
        after_span-append ends_default d b'}' s b refl,
      )
      refl

module _ (env : Str → Option Str) where
  -- The bytes of a match are passed over.
  skip-append :
      (xs s : Str) (k j : ℕ)
      → k ≡ length xs + j
      → substitute_from env k (xs ++ s) ≡ substitute_from env j s
  unfolding substitute_from
  skip-append [] s k j e = ap (λ i. substitute_from env i s) (omega arith)
  skip-append (x ∷ xs) s zero j e = ground arith
  skip-append (x ∷ xs) s (suc k) j e = skip-append xs s k j (omega arith)

  not_matched : (c : ℕ) (s : Str) → (c == b'$') ≡ false → match_at (c ∷ s) ≡ none
  unfolding match_at
  not_matched c s h = rw h refl

  substitute-text :
      (t s : Str)
      → IsPiece (Piece.text t)
      → substitute_from env 0 (t ++ s) ≡ t ++ substitute_from env 0 s
  unfolding substitute_from
  substitute-text [] s a = refl
  substitute-text (c ∷ t) s a =
      rw (substitute_from, not_matched c (t ++ s) a.0) (ap (◌∷◌ c) (substitute-text t s a.1))

  -- A match at the start is replaced, and the search goes on behind its bytes.
  substitute-match :
      (c : ℕ) (xs s t : Str) (m : Match)
      → t ≡ xs ++ s
      → match_at (c ∷ t) ≡ some m
      → m.size ≡ suc (length xs)
      → substitute_from env 0 (c ∷ t) ≡ replacement env m ++ substitute_from env 0 s
  substitute-match c xs s t m split found e =
      unfold substitute_from in
      rw (substitute_from, found)
        (ap (λ u. replacement env m ++ u)
          (ap (substitute_from env (m.size - 1)) split
            ∙ skip-append xs s (m.size - 1) 0 (omega arith)))

  replacement-value : (m : Match) → replacement env m ≡ or_value (env m.var_name) m.default_value
  unfolding replacement
  replacement-value m = ground arith

  substitute-piece :
      (p : Piece) (s : Str)
      → IsPiece p
      → substitute_from env 0 (write p s) ≡ expand env p ++ substitute_from env 0 s
  unfolding write expand
  substitute-piece (Piece.text t) s a = substitute-text t s a
  substitute-piece (Piece.variable n) s a =
      substitute-match b'$' (b'{' ∷ (n ++ b'}' ∷ [])) s (b'{' ∷ (n ++ b'}' ∷ s)) _
        (ap (◌∷◌ b'{') (sym (append_assoc n (b'}' ∷ []) s))) (match_at-variable n s a)
        (omega (arith, length-append n (b'}' ∷ [])))
      ∙ ap (λ v. v ++ substitute_from env 0 s) (replacement-value _)
  substitute-piece (Piece.with_default n d) s a =
      let tail = d ++ b'}' ∷ [] in
      substitute-match b'$' (b'{' ∷ (n ++ b':' ∷ b'-' ∷ tail)) s
        (b'{' ∷ (n ++ b':' ∷ b'-' ∷ (d ++ b'}' ∷ s))) _
        (ap (◌∷◌ b'{') (
          ap (λ t. n ++ b':' ∷ b'-' ∷ t) (sym (append_assoc d (b'}' ∷ []) s))
          ∙ sym (append_assoc n (b':' ∷ b'-' ∷ tail) s)))
        (match_at-with_default n d s a)
        (omega (arith, length-append n (b':' ∷ b'-' ∷ tail), length-append d (b'}' ∷ [])))
      ∙ ap (λ v. v ++ substitute_from env 0 s) (replacement-value _)

  -- In a template whose texts hold no dollar, whose names are not empty and hold no colon and no
  -- closing brace, and whose defaults hold no closing brace, every reference is replaced by the
  -- value of its variable, or by its default (or nothing) if the variable is not set; all else,
  -- the values included, is left as it is.
  pub substitute_env-written :
      (ps : List Piece) → All IsPiece ps → substitute_env env (written ps) ≡ expanded env ps
  unfolding substitute_env written expanded
  substitute_env-written [] a = unfold substitute_from in refl
  substitute_env-written (p ∷ ps) a =
      substitute-piece p (written ps) a.0
      ∙ ap (λ s. expand env p ++ s) (substitute_env-written ps a.1)
