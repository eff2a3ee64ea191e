-- ===== src/Config/Validation/Rules.antt =====
-- What a valid configuration is, field by field, in terms that do not mention the validation code.
use smaug.Prelude.{
  ℕ, ℤ, pos, ◌≤ℤ◌, Str, str, false, List, [], ◌∷◌, Option, some, ◌≡◌, ◌≢◌, ◌⊎◌, In, All,
}
use smaug.Prelude.Map.{Map, keys}
use smaug.Config.Types.{
  Config, GwaihirConfig, LoggingConfig, ObservabilityConfig, Server, WakeOnLanConfig,
  SleepOnLanConfig, ServerHealthCheck, Route,
}
use smaug.Config.Validation.Fields.{Url}

abbrev pub IsPort : ℤ → Type 0
IsPort p = (pos 1 ≤ℤ p) × (p ≤ℤ pos 65535)

-- Not set, or positive.
abbrev pub IsDuration : ℤ → Type 0
IsDuration t = (t ≡ pos 0) ⊎ (pos 1 ≤ℤ t)

-- Not set, or one of the choices.
abbrev pub IsChoice : List Str → Str → Type 0
IsChoice choices s = (s ≡ []) ⊎ In s choices

abbrev pub levels : List Str
levels = str "debug" ∷ str "info" ∷ str "warn" ∷ str "error" ∷ []

abbrev pub formats : List Str
formats = str "json" ∷ str "text" ∷ []

-- `user:password` with a user: a first colon stands in the text, and not at its head; more may follow.
abbrev pub IsUserPassword : Str → Type 0
IsUserPassword d = (c : ℕ) × (rest : Str) × (d ≡ c ∷ rest) × (c ≢ b':') × In b':' rest

abbrev pub IsLogging : LoggingConfig → Type 0
IsLogging l = IsChoice levels l.level × IsChoice formats l.format

abbrev pub IsObservability : ObservabilityConfig → Type 0
IsObservability o =
    ((o.health_check.enabled ≡ false) ⊎ IsPort o.health_check.port)
    × ((o.metrics.enabled ≡ false) ⊎ IsPort o.metrics.port)

abbrev pub IsWakeOnLan : WakeOnLanConfig → Type 0
IsWakeOnLan w = (w.enabled ≡ false) ⊎ (IsDuration w.timeout × IsDuration w.debounce)

module _ (decode_base64 : Str → Option Str) where
  abbrev pub IsAuthToken : Str → Type 0
  IsAuthToken t = (d : Str) × (decode_base64 t ≡ some d) × IsUserPassword d

module _ (parse_url : Str → Option Url) where
  -- An http or https URL with a host.
  abbrev pub IsWebUrl : Str → Type 0
  IsWebUrl s =
      (s ≢ [])
      × (u : Url) × (parse_url s ≡ some u)
      × ((u.scheme ≡ str "http") ⊎ (u.scheme ≡ str "https"))
      × (u.host ≢ [])

  abbrev pub IsGwaihir : GwaihirConfig → Type 0
  IsGwaihir g = ((g.url ≡ []) ⊎ IsWebUrl g.url) × IsDuration g.timeout

  abbrev pub IsSleepOnLan : SleepOnLanConfig → Type 0
  IsSleepOnLan s = (s.enabled ≡ false) ⊎ (IsWebUrl s.endpoint × IsDuration s.idle_timeout)

  abbrev pub IsRoute : Map Server → Route → Type 0
  IsRoute servers r =
      (r.name ≢ [])
      × IsPort r.listen
      × IsWebUrl r.upstream
      × ((r.server ≡ []) ⊎ In r.server (keys servers))

module _ (parse_url : Str → Option Url) (decode_base64 : Str → Option Str) where
  abbrev pub IsHealthCheck : ServerHealthCheck → Type 0
  IsHealthCheck h =
      (h.endpoint ≡ [])
      ⊎ (IsWebUrl parse_url h.endpoint
          × IsDuration h.interval
          × IsDuration h.timeout
          × ((h.auth_token.value ≡ []) ⊎ IsAuthToken decode_base64 h.auth_token.value))

  abbrev pub IsServer : Server → Type 0
  IsServer s =
      IsWakeOnLan s.wake_on_lan
      × IsSleepOnLan parse_url s.sleep_on_lan
      × IsHealthCheck s.health_check

  -- Every setting, every server and every route is valid.
  abbrev pub IsConfig : Config → Type 0
  IsConfig c =
      IsGwaihir parse_url c.settings.gwaihir
      × IsLogging c.settings.logging
      × IsObservability c.settings.observability
      × All (λ (e : Str × Server). IsServer e.1) c.servers
      × All (IsRoute parse_url c.servers) c.routes
