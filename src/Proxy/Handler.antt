-- ===== src/Proxy/Handler.antt =====
-- internal/proxy/proxy.go: the handler of a route and what it records. Parsing of URLs is an
-- argument; headers are a map from a canonical name to the first value.
pub mod Serving
use smaug.Prelude.{
  ℕ, Str, str, str_eq, is_empty, Bool, true, false, not, ◌&&◌, List, [], ◌∷◌, Option, none, some,
  if◌then◌else◌, Time,
}
use smaug.Prelude.Map.{Map, lookup, insert}
use smaug.Proxy.IdleTracker.{IdleTracker, record_activity}

-- An ActivityRecorder: nil, a nil *IdleTracker that an interface value holds, or a tracker.
pub data Recorder : Type 0 where
  no_recorder nil_tracker recording : Recorder

-- The conversion of a *IdleTracker to the interface.
unfoldable pub as_recorder : Option IdleTracker → Recorder
as_recorder none = Recorder.nil_tracker
as_recorder (some t) = Recorder.recording

abbrev pub is_nil : Recorder → Bool
is_nil Recorder.no_recorder = true
is_nil _ = false

pub record Target : Type 0 where
  pub scheme : Str
  pub host : Str

pub data Handler : Type 0 where
  error_handler : Handler
  reverse_proxy : Target → Handler

unfoldable pub new_proxy_handler : (Str → Option Target) → Str → Handler
new_proxy_handler parse target_url = elim (parse target_url) [
  | none ↦ Handler.error_handler
  | some target ↦
      if is_empty target.scheme
      then Handler.error_handler
      else if not (str_eq target.scheme (str "http")) && not (str_eq target.scheme (str "https"))
      then Handler.error_handler
      else if is_empty target.host
      then Handler.error_handler
      else Handler.reverse_proxy target
]

-- What is answered: 502 without a request to a backend, or what the reverse proxy answers.
pub data Served : Type 0 where
  bad_gateway : Served
  proxied : Target → Served

-- A call of RecordActivity; `none` is a panic.
unfoldable pub call_recorder : Recorder → Str → Time → IdleTracker → Option IdleTracker
call_recorder Recorder.no_recorder route_id now t = some t
call_recorder Recorder.nil_tracker route_id now t = none
call_recorder Recorder.recording route_id now t = some (record_activity t route_id now)

abbrev answer : Handler → Served
answer Handler.error_handler = Served.bad_gateway
answer (Handler.reverse_proxy target) = Served.proxied target

-- ServeHTTP of both handlers: a recorder that is not nil is called first.
unfoldable pub serve_route :
    Recorder → Handler → Str → Time → IdleTracker → Option (IdleTracker × Served)
serve_route rec h route_id now t =
    if is_nil rec
    then some (t, answer h)
    else elim (call_recorder rec route_id now t) [ none ↦ none | some t' ↦ some (t', answer h) ]

abbrev pub Headers : Type 0
Headers = Map Str

-- Header.Get
unfoldable pub header : Headers → Str → Str
header h name = elim (lookup name h) [ none ↦ str "" | some v ↦ v ]

abbrev pub x_forwarded_proto : Str
x_forwarded_proto = str "X-Forwarded-Proto"

abbrev pub x_forwarded_host : Str
x_forwarded_host = str "X-Forwarded-Host"

unfoldable pub set_unless : Str → Str → Headers → Headers
set_unless name v h = if is_empty (header h name) then insert name v h else h

-- addForwardedHeaders; `tls` tells whether the request came over TLS.
unfoldable pub add_forwarded_headers : Bool → Str → Headers → Headers
add_forwarded_headers tls original_host h =
    set_unless x_forwarded_host original_host
      (set_unless x_forwarded_proto (if tls then str "https" else str "http") h)
