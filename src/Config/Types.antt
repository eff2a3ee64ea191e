-- ===== src/Config/Types.antt =====
-- internal/config/types.go. Durations are `int64` nanoseconds and ports are `int`, so both are
-- integers; strings are byte sequences.
use smaug.Prelude.{ℤ, Str, str, Bool, is_empty, List, if◌then◌else◌}
use smaug.Prelude.Map.{Map}

-- A wrapped string that is shown redacted.
pub record SecretString : Type 0 where
  pub value : Str

-- SecretString.String, which MarshalText and LogValue pass on.
unfoldable pub secret_string : SecretString → Str
secret_string s = if is_empty s.value then str "" else str "***REDACTED***"

pub record GwaihirConfig : Type 0 where
  pub url : Str
  pub api_key : SecretString
  pub timeout : ℤ

pub record LoggingConfig : Type 0 where
  pub level : Str
  pub format : Str

-- HealthCheckConfig and MetricsConfig have the same two fields.
pub record EndpointConfig : Type 0 where
  pub enabled : Bool
  pub port : ℤ

pub record ObservabilityConfig : Type 0 where
  pub health_check : EndpointConfig
  pub metrics : EndpointConfig

pub record SettingsConfig : Type 0 where
  pub gwaihir : GwaihirConfig
  pub logging : LoggingConfig
  pub observability : ObservabilityConfig

pub record WakeOnLanConfig : Type 0 where
  pub enabled : Bool
  pub machine_id : Str
  pub timeout : ℤ
  pub debounce : ℤ

pub record SleepOnLanConfig : Type 0 where
  pub enabled : Bool
  pub endpoint : Str
  pub auth_token : SecretString
  pub idle_timeout : ℤ

pub record ServerHealthCheck : Type 0 where
  pub endpoint : Str
  pub interval : ℤ
  pub timeout : ℤ
  pub auth_token : SecretString

pub record Server : Type 0 where
  pub wake_on_lan : WakeOnLanConfig
  pub sleep_on_lan : SleepOnLanConfig
  pub health_check : ServerHealthCheck

pub record Route : Type 0 where
  pub name : Str
  pub listen : ℤ
  pub upstream : Str
  pub server : Str

pub record Config : Type 0 where
  pub settings : SettingsConfig
  pub servers : Map Server
  pub routes : List Route
