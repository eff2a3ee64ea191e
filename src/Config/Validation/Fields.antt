-- ===== src/Config/Validation/Fields.antt =====
-- The fields that a validation error names, and what may be wrong with one. The messages of
-- validation.go are these two, put into words.
use smaug.Prelude.{ℕ, Str}

-- The path of a field: `settings.gwaihir.url`, `servers.NAME.wakeOnLan.timeout`, `routes[I].name`.
pub data Field : Type 0 where
  gwaihir_url gwaihir_timeout logging_level logging_format health_check_port metrics_port : Field
  wake_timeout wake_debounce sleep_endpoint sleep_idle_timeout : Str → Field
  check_endpoint check_interval check_timeout check_auth_token : Str → Field
  route_name route_listen route_upstream route_server : ℕ → Field

pub data Problem : Type 0 where
  url_empty url_unparsable url_scheme url_host : Problem
  port_range timeout_positive bad_choice : Problem
  base64_invalid auth_format name_empty server_missing : Problem

abbrev pub FieldError : Type 0
FieldError = Field × Problem

-- What the program reads of a parsed URL (net/url.URL).
pub record Url : Type 0 where
  pub scheme : Str
  pub host : Str
  pub hostname : Str
