-- ===== src/Infrastructure/Logger.antt =====
-- internal/infrastructure/logger/logger.go: which level and format a logger has. slog's levels are
-- its integers, and a record is written if its level is at least that of the handler.
use smaug.Prelude.{
  ℤ, pos, negsuc, leb_ℤ, Str, str, str_eq, str_eq_iff, Bool, true, ◌≡◌, ◌⊎◌, ◌↔◌, inl, inr, refl,
  arith, if◌then◌else◌, [], In,
}
use smaug.Config.Types.{Config}
use smaug.Config.Validation.Rules.{levels}

pub data Level : Type 0 where
  debug info warn error : Level

pub data LogHandler : Type 0 where
  json text : LogHandler

unfoldable pub level_from : Str → Level
level_from s =
    if str_eq s (str "debug")
    then Level.debug
    else if str_eq s (str "warn")
    then Level.warn
    else if str_eq s (str "error")
    then Level.error
    else Level.info

unfoldable pub format_from : Str → LogHandler
format_from s = if str_eq s (str "text") then LogHandler.text else LogHandler.json

unfoldable pub parse_level : Level → ℤ
parse_level Level.debug = negsuc 3
parse_level Level.info = pos 0
parse_level Level.warn = pos 4
parse_level Level.error = pos 8

-- The handler that createHandler makes.
pub record Logger : Type 0 where
  pub level : ℤ
  pub handler : LogHandler

unfoldable pub new : Level → LogHandler → Logger
unfolding parse_level
new level handler = record { level = parse_level level; handler = handler }

-- NewFromEnvs; os.Getenv is an argument, and gives the empty string for a variable that is not set.
unfoldable pub new_from_envs : (Str → Str) → Logger
unfolding level_from format_from new
new_from_envs getenv =
    new (level_from (getenv (str "SMAUG_LOG_LEVEL")))
      (format_from (getenv (str "SMAUG_LOG_FORMAT")))

-- initLogger (cmd/smaug/main.go)
unfoldable pub init_logger : Config → Logger
unfolding level_from format_from new
init_logger cfg =
    new (level_from cfg.settings.logging.level) (format_from cfg.settings.logging.format)

-- Whether a call of the logger's method of a level writes a record.
unfoldable pub writes : Logger → Level → Bool
unfolding parse_level
writes l at = leb_ℤ l.level (parse_level at)

abbrev name : Level → Str
name Level.debug = str "debug"
name Level.info = str "info"
name Level.warn = str "warn"
name Level.error = str "error"

-- A level that the validation accepts is the one that the logger gets, and `info` if none is set.
level_from-valid :
    (s : Str)
    → (s ≡ []) ⊎ In s levels
    → ((s ≡ []) × (level_from s ≡ Level.info)) ⊎ (name (level_from s) ≡ s)
unfolding level_from str_eq
level_from-valid s (inl e) = inl (e, rw e refl)
level_from-valid s (inr (inl e)) = inr (rw e refl)
level_from-valid s (inr (inr (inl e))) = inr (rw e refl)
level_from-valid s (inr (inr (inr (inl e)))) = inr (rw e refl)
level_from-valid s (inr (inr (inr (inr (inl e))))) = inr (rw e refl)
level_from-valid s (inr (inr (inr (inr (inr h))))) = absurd h

-- Debug records are written exactly if the configuration asks for them, and errors always.
init_logger-writes :
    (cfg : Config)
    → (writes (init_logger cfg) Level.error ≡ true)
      × ((writes (init_logger cfg) Level.debug ≡ true) ↔ (cfg.settings.logging.level ≡ str "debug"))
unfolding init_logger new writes parse_level level_from
init_logger-writes cfg = ground (arith, str_eq_iff cfg.settings.logging.level (str "debug"))
