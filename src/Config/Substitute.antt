-- ===== src/Config/Substitute.antt =====
-- internal/config/substitute.go. The regular expression `\$\{([^}:]+)(?::-([^}]*))?\}` is written
-- out as a matcher on bytes, since both of its classes only leave out ASCII bytes.
-- os.LookupEnv is a parameter.
pub mod Templates
use smaug.Prelude.{
  ℕ, zero, suc, ◌+◌, ◌-◌, ◌==◌, Str, is_empty, Bool, ◌||◌, List, [], ◌∷◌, ◌++◌, Option, none, some,
  if◌then◌else◌, length,
}

-- The bytes that a greedy class takes: up to the first that `stop` holds of.
unfoldable pub span : (ℕ → Bool) → Str → Str
span stop [] = []
span stop (c ∷ s) = let rest = span stop s in if stop c then [] else c ∷ rest

-- What is left after them.
unfoldable pub after_span : (ℕ → Bool) → Str → Str
after_span stop [] = []
after_span stop (c ∷ s) = let rest = after_span stop s in if stop c then c ∷ s else rest

abbrev pub ends_name : ℕ → Bool
ends_name c = c == b'}' || c == b':'

abbrev pub ends_default : ℕ → Bool
ends_default c = c == b'}'

-- The groups of a match, and how many bytes it takes.
pub record Match : Type 0 where
  pub var_name : Str
  pub default_value : Str
  pub size : ℕ

-- What follows a default is a brace, or there is no match.
unfoldable match_close : Str → Str → Str → Option Match
match_close name value [] = none
match_close name value (c ∷ s) =
    if c == b'}'
    then some (record {
      var_name = name;
      default_value = value;
      size = 2 + length name + 2 + length value + 1;
    })
    else none

unfoldable match_dash : Str → Str → Option Match
unfolding match_close
match_dash name [] = none
match_dash name (c ∷ s) =
    if c == b'-' then match_close name (span ends_default s) (after_span ends_default s) else none

-- After the name: a brace, or `:-`, a default and a brace.
unfoldable match_end : Str → Str → Option Match
unfolding match_dash
match_end name [] = none
match_end name (c ∷ s) =
    if c == b'}'
    then some (record { var_name = name; default_value = []; size = 2 + length name + 1 })
    else if c == b':'
    then match_dash name s
    else none

unfoldable match_name : Str → Option Match
unfolding match_end
match_name s =
    let name = span ends_name s in
    if is_empty name then none else match_end name (after_span ends_name s)

unfoldable match_brace : Str → Option Match
unfolding match_name
match_brace [] = none
match_brace (c ∷ s) = if c == b'{' then match_name s else none

-- A match of the pattern at the start of a text.
unfoldable pub match_at : Str → Option Match
unfolding match_brace
match_at [] = none
match_at (c ∷ s) = if c == b'$' then match_brace s else none

module _ (lookup_env : Str → Option Str) where
  -- A variable that is set to the empty string keeps it.
  unfoldable pub replacement : Match → Str
  replacement m = elim (lookup_env m.var_name) [ none ↦ m.default_value | some value ↦ value ]

  -- ReplaceAllStringFunc: the leftmost match is replaced, and the search goes on behind it. The
  -- number counts the bytes that are left of the last match.
  unfoldable pub substitute_from : ℕ → Str → Str
  substitute_from skip [] = []
  substitute_from (suc skip) (c ∷ s) = substitute_from skip s
  substitute_from zero (c ∷ s) = elim (match_at (c ∷ s)) [
    | none ↦ c ∷ substitute_from 0 s
    | some m ↦ replacement m ++ substitute_from (m.size - 1) s
  ]

  unfoldable pub substitute_env : Str → Str
  unfolding substitute_from
  substitute_env value = substitute_from 0 value
