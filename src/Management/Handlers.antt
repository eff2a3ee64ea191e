-- ===== src/Management/Handlers.antt =====
-- internal/management/health/handlers.go and types.go. The JSON encoding and the text of the uptime
-- are arguments.
pub mod Readiness
use smaug.Prelude.{
  ℕ, ◌==◌, ◌++◌, Str, str, str_eq, Bool, not, List, [], ◌∷◌, Option, none, some, if◌then◌else◌,
}
use smaug.Middleware.Response.{Script, Request, Handler, status_ok}
use smaug.Middleware.Chain.{http_error}

pub record ApplicationHealth : Type 0 where
  pub status : Str
  pub version : Str
  pub active_routes : ℕ
  pub uptime : Str

pub record LivenessResponse : Type 0 where
  pub status : Str

pub record ReadinessResponse : Type 0 where
  pub status : Str
  pub active_routes : ℕ

pub record VersionInfo : Type 0 where
  pub version : Str
  pub build_time : Str
  pub git_commit : Str

-- What the handlers encode.
pub data Answer : Type 0 where
  application_health : ApplicationHealth → Answer
  liveness : LivenessResponse → Answer
  readiness : ReadinessResponse → Answer
  version_info : VersionInfo → Answer

abbrev pub method_not_allowed : Str
method_not_allowed = str "Method not allowed"

abbrev pub service_unavailable : ℕ
service_unavailable = 503

module _ (encode : Answer → Str) where
  abbrev write_json : ℕ → Answer → Script
  write_json code a =
      Script.set_header (str "Content-Type") (str "application/json")
        (Script.write_header code (Script.write (encode a) (λ n e. Script.returns)))

  -- The guard of the four handlers.
  abbrev if_get : Request → Script → Script
  if_get r s = if not (str_eq r.method (str "GET")) then http_error method_not_allowed 405 else s

  -- `active` is what GetActiveRouteCount returns.
  unfoldable pub new_health_handler : ℕ → VersionInfo → Str → Handler
  new_health_handler active info uptime r = if_get r (
      write_json status_ok (
        Answer.application_health (record {
          status = if active == 0 then str "degraded" else str "healthy";
          version = info.version;
          active_routes = active;
          uptime = uptime;
        })))

  unfoldable pub new_live_handler : Handler
  new_live_handler r =
      if_get r (write_json status_ok (Answer.liveness (record { status = str "alive" })))

  unfoldable pub new_ready_handler : ℕ → Handler
  new_ready_handler active r = if_get r (
      write_json (if active == 0 then service_unavailable else status_ok) (
        Answer.readiness (record {
          status = if active == 0 then str "not ready" else str "ready";
          active_routes = active;
        })))

  unfoldable pub new_version_handler : VersionInfo → Handler
  new_version_handler info r = if_get r (write_json status_ok (Answer.version_info info))

  -- The mux of Server.Start (server.go).
  unfoldable pub health_mux : ℕ → VersionInfo → Str → Handler
  health_mux active info uptime r =
      if str_eq r.path (str "/health")
      then new_health_handler active info uptime r
      else if str_eq r.path (str "/live")
      then new_live_handler r
      else if str_eq r.path (str "/ready")
      then new_ready_handler active r
      else if str_eq r.path (str "/version")
      then new_version_handler info r
      else http_error (str "404 page not found") 404
