-- ===== src/Config/Validation/Checks.antt =====
-- Each check of validation.go adds no error exactly if its field meets the rule.
use smaug.Prelude.{
  ℕ, ℤ, pos, negsuc, Str, str, str_eq_iff, is_empty, true, Bool-cases, Option-cases, ◌==◌, List, [],
  ◌∷◌, ◌++◌, Option, none, some, ◌≡◌, ◌≢◌, ◌⊎◌, ◌↔◌, inl, inr, refl, sym, subst, In, arith,
}
use smaug.Config.Types.{GwaihirConfig, LoggingConfig, ObservabilityConfig, WakeOnLanConfig}
use smaug.Config.Validation.Fields.{Url, Field, Problem, FieldError}
use smaug.Config.Validation.Rules.{
  levels, formats, IsPort, IsDuration, IsUserPassword, IsLogging, IsObservability, IsWakeOnLan,
  IsWebUrl, IsGwaihir,
}
use smaug.Config.Validation.{
  add, valid_log_levels, valid_log_formats, validate_port, validate_optional_timeout, is_web_scheme,
  check_url, before_colon, check_user, validate_logging, validate_observability,
  validate_wake_on_lan, validate_url, validate_gwaihir,
}

append_one-ne-nil : (errs : List FieldError) (e : FieldError) → errs ++ e ∷ [] ≢ []
append_one-ne-nil [] e h = ground arith
append_one-ne-nil (x ∷ xs) e h = ground arith

pub add_iff :
    (errs : List FieldError) (o : Option FieldError)
    → (add errs o ≡ []) ↔ ((errs ≡ []) × (o ≡ none))
unfolding add
add_iff errs none = ground arith
add_iff errs (some e) = ground (arith, append_one-ne-nil errs e)

pub validate_port_iff : (p : ℤ) (f : Field) → (validate_port p f ≡ none) ↔ IsPort p
unfolding validate_port
validate_port_iff p f = ground arith

pub optional_timeout_iff :
    (errs : List FieldError) (t : ℤ) (f : Field)
    → (validate_optional_timeout errs t f ≡ []) ↔ ((errs ≡ []) × IsDuration t)
unfolding validate_optional_timeout
optional_timeout_iff errs (pos n) f =
    ground (arith, append_one-ne-nil errs (f, Problem.timeout_positive))
optional_timeout_iff errs (negsuc n) f =
    ground (arith, append_one-ne-nil errs (f, Problem.timeout_positive))

valid_log_levels_iff : (s : Str) → (valid_log_levels s ≡ true) ↔ In s levels
unfolding valid_log_levels
valid_log_levels_iff s = ground (
  arith,
  str_eq_iff s (str "debug"),
  str_eq_iff s (str "info"),
  str_eq_iff s (str "warn"),
  str_eq_iff s (str "error"),
)

valid_log_formats_iff : (s : Str) → (valid_log_formats s ≡ true) ↔ In s formats
unfolding valid_log_formats
valid_log_formats_iff s = ground (arith, str_eq_iff s (str "json"), str_eq_iff s (str "text"))

pub is_empty_iff : (s : Str) → (is_empty s ≡ true) ↔ (s ≡ [])
is_empty_iff [] = ground arith
is_empty_iff (c ∷ s) = ground arith

pub validate_logging_iff :
    (l : LoggingConfig) (errs : List FieldError)
    → (validate_logging l errs ≡ []) ↔ ((errs ≡ []) × IsLogging l)
unfolding validate_logging
validate_logging_iff l errs = ground (
  arith,
  valid_log_levels_iff l.level,
  valid_log_formats_iff l.format,
  is_empty_iff l.level,
  is_empty_iff l.format,
  append_one-ne-nil errs (Field.logging_level, Problem.bad_choice),
  append_one-ne-nil errs (Field.logging_format, Problem.bad_choice),
  append_one-ne-nil (errs ++ (Field.logging_level, Problem.bad_choice) ∷ [])
      (Field.logging_format, Problem.bad_choice),
)

pub validate_observability_iff :
    (o : ObservabilityConfig) (errs : List FieldError)
    → (validate_observability o errs ≡ []) ↔ ((errs ≡ []) × IsObservability o)
unfolding validate_observability
validate_observability_iff o errs = ground (
  arith,
  validate_port_iff o.health_check.port Field.health_check_port,
  validate_port_iff o.metrics.port Field.metrics_port,
  add_iff errs (validate_port o.health_check.port Field.health_check_port),
  add_iff errs (validate_port o.metrics.port Field.metrics_port),
  add_iff (add errs (validate_port o.health_check.port Field.health_check_port))
      (validate_port o.metrics.port Field.metrics_port),
)

pub validate_wake_on_lan_iff :
    (name : Str) (w : WakeOnLanConfig) (errs : List FieldError)
    → (validate_wake_on_lan name w errs ≡ []) ↔ ((errs ≡ []) × IsWakeOnLan w)
unfolding validate_wake_on_lan
validate_wake_on_lan_iff name w errs = ground (
  arith,
  optional_timeout_iff errs w.timeout (Field.wake_timeout name),
  optional_timeout_iff (validate_optional_timeout errs w.timeout (Field.wake_timeout name))
      w.debounce (Field.wake_debounce name),
)

-- A text has a part before its first colon exactly if a colon stands in it.
before_colon-In : (s : Str) → (p : Str) → before_colon s ≡ some p → In b':' s
unfolding before_colon
before_colon-In [] p h = ground arith
before_colon-In (c ∷ s) p h = elim (Option-cases (before_colon s)) [
  | inl e ↦ ground arith
  | inr (q, e) ↦ ground (arith, before_colon-In s q e)
]

In-before_colon : (s : Str) → In b':' s → (p : Str) × (before_colon s ≡ some p)
unfolding before_colon
In-before_colon [] m = absurd m
In-before_colon (c ∷ s) (inl e) = ([], ground arith)
In-before_colon (c ∷ s) (inr m) = elim (Bool-cases (c == b':')) [
  | inl hit ↦ ([], rw hit)
  | inr miss ↦ let (p, e) = In-before_colon s m in (c ∷ p, rw (miss, e))
]

check_user_accepts :
    (c : ℕ) (s : Str) (f : Field)
    → c ≢ b':'
    → In b':' s
    → check_user (before_colon (c ∷ s)) f ≡ none
unfolding check_user before_colon
check_user_accepts c s f ne m = let (p, e) = In-before_colon s m in ground arith

pub check_user_iff :
    (s : Str) (f : Field) → (check_user (before_colon s) f ≡ none) ↔ IsUserPassword s
unfolding check_user before_colon
check_user_iff [] f = (λ h. cc, λ h. cc (h.2))
check_user_iff (c ∷ s) f = (
  λ h. elim (Option-cases (before_colon s)) [
    | inl e ↦ ground arith
    | inr (p, e) ↦ (c, s, refl, ground arith, before_colon-In s p e)
  ],
  λ h.
      subst (λ (t : Str). check_user (before_colon t) f ≡ none) (sym h.2)
        (check_user_accepts h.0 h.1 f h.3 h.4),
)

is_web_scheme_iff : (s : Str) → (is_web_scheme s ≡ true) ↔ ((s ≡ str "http") ⊎ (s ≡ str "https"))
unfolding is_web_scheme
is_web_scheme_iff s = ground (arith, str_eq_iff s (str "http"), str_eq_iff s (str "https"))

check_url_iff :
    (u : Url) (f : Field)
    → (check_url (some u) f ≡ none)
      ↔ (((u.scheme ≡ str "http") ⊎ (u.scheme ≡ str "https")) × (u.host ≢ []))
unfolding check_url
check_url_iff u f = elim (Bool-cases (is_web_scheme u.scheme)) [
  | inl web ↦ rw web (ground (arith, is_empty_iff u.host, is_web_scheme_iff u.scheme))
  | inr other ↦ rw other (ground (arith, is_web_scheme_iff u.scheme))
]

module _ (parse_url : Str → Option Url) where
  validate_url_accepts :
      (s : Str) (f : Field) → validate_url parse_url s f ≡ none → IsWebUrl parse_url s
  unfolding validate_url
  validate_url_accepts s f h = elim (Option-cases (parse_url s)) [
    | inl e ↦ ground (arith, is_empty_iff s)
    | inr (u, e) ↦ (
      ground (arith, is_empty_iff s),
      u,
      e,
      ground (arith, is_empty_iff s, check_url_iff u f),
      ground (arith, is_empty_iff s, check_url_iff u f),
    )
  ]

  pub validate_url_iff :
      (s : Str) (f : Field) → (validate_url parse_url s f ≡ none) ↔ IsWebUrl parse_url s
  unfolding validate_url
  validate_url_iff s f = (
    validate_url_accepts s f,
    λ h. rw (h.2) (ground (arith, is_empty_iff s, check_url_iff h.1 f)),
  )

  pub validate_gwaihir_iff :
      (g : GwaihirConfig) (errs : List FieldError)
      → (validate_gwaihir parse_url g errs ≡ []) ↔ ((errs ≡ []) × IsGwaihir parse_url g)
  unfolding validate_gwaihir
  validate_gwaihir_iff g errs =
      let checked = add errs (validate_url parse_url g.url Field.gwaihir_url) in
      ground (
        arith,
        is_empty_iff g.url,
        validate_url_iff g.url Field.gwaihir_url,
        add_iff errs (validate_url parse_url g.url Field.gwaihir_url),
        optional_timeout_iff errs g.timeout Field.gwaihir_timeout,
        optional_timeout_iff checked g.timeout Field.gwaihir_timeout,
      )
