-- ===== src/Middleware/Chain.antt =====
-- The middlewares of internal/middleware/logging.go, metrics.go and recovery.go, and their chain.
-- strings.TrimSpace, net.SplitHostPort and the new request ID are arguments.
use smaug.Prelude.{
  ℕ, zero, suc, ◌==◌, Str, str, is_empty, Bool, true, false, List, [], ◌∷◌, ◌++◌, Option, none,
  some, if◌then◌else◌, length, get_elem?, ◌≡◌, refl,
}
use smaug.Prelude.Map.{Map, lookup}
use smaug.Middleware.Response.{
  Entry, Script, Request, Handler, status_ok, status_internal_server_error,
}
use smaug.Middleware.Writers.{logged, counted}

abbrev pub Middleware : Type 0
Middleware = Handler → Handler

-- strings.Index of a comma and the text before it: `none` if there is no comma.
unfoldable pub before_comma : Str → Option Str
before_comma [] = none
before_comma (c ∷ s) =
    let rest = before_comma s in
    if c == b',' then some [] else elim rest [ none ↦ none | some t ↦ some (c ∷ t) ]

unfoldable pub has_colon : Str → Bool
has_colon [] = false
has_colon (c ∷ s) = if c == b':' then true else has_colon s

-- Header.Get
unfoldable pub get_header : Map Str → Str → Str
get_header h name = elim (lookup name h) [ none ↦ [] | some v ↦ v ]

module _ (trim_space : Str → Str) (split_host_port : Str → Option Str) where
  unfoldable pub extract_ip_from_remote_addr : Str → Str
  extract_ip_from_remote_addr addr =
      if has_colon addr then elim (split_host_port addr) [ none ↦ addr | some ip ↦ ip ] else addr

  -- The first entry of X-Forwarded-For, unless it is empty.
  unfoldable pub first_forwarded : Str → Str
  first_forwarded xff = elim (before_comma xff) [
    | none ↦ trim_space xff
    | some ip ↦ if is_empty ip then trim_space xff else trim_space ip
  ]

  unfoldable pub extract_client_ip : Request → Str
  unfolding first_forwarded extract_ip_from_remote_addr get_header
  extract_client_ip r =
      let xff = get_header r.header (str "X-Forwarded-For") in
      let xri = get_header r.header (str "X-Real-IP") in
      if is_empty xff
      then (if is_empty xri then extract_ip_from_remote_addr r.remote_addr else trim_space xri)
      else first_forwarded xff

  -- NewLoggingMiddleware; `id` is the new request ID.
  unfoldable pub new_logging_middleware : Str → Middleware
  new_logging_middleware id next r = Script.set_header (str "X-Request-ID") id (
      Script.notes (Entry.request id r.method r.path (extract_client_ip r)) (
        logged (λ w. Script.notes (Entry.response id w.status_code w.bytes_written) Script.returns)
          (record { status_code = status_ok; bytes_written = 0; header_written = false })
          (next (record r { request_id = some id }))))

-- NewMetricsMiddleware; `registry` tells whether there is one.
unfoldable pub new_metrics_middleware : Bool → Middleware
new_metrics_middleware registry next r =
    counted
      (λ w.
        if registry
        then Script.notes (Entry.recorded r.method w.status_code) Script.returns
        else Script.returns)
      (record { status_code = status_ok; written = false }) (next r)

abbrev pub internal_server_error : Str
internal_server_error = str "Internal Server Error"

-- http.Error: plain text, and the message with a line feed.
unfoldable pub http_error : Str → ℕ → Script
http_error message code = Script.del_header (str "Content-Length") (
    Script.set_header (str "Content-Type") (str "text/plain; charset=utf-8") (
      Script.set_header (str "X-Content-Type-Options") (str "nosniff")
        (Script.write_header code (Script.write (message ++ 10 ∷ []) (λ n e. Script.returns)))))

-- What the deferred function does after a handler that panics.
unfoldable pub recovered : Entry → Script → Script
unfolding http_error
recovered e Script.returns = Script.returns
recovered e Script.panics =
    Script.notes e (http_error internal_server_error status_internal_server_error)
recovered e (Script.set_header k v s) = Script.set_header k v (recovered e s)
recovered e (Script.del_header k s) = Script.del_header k (recovered e s)
recovered e (Script.write_header n s) = Script.write_header n (recovered e s)
recovered e (Script.write b s) = Script.write b (λ n err. recovered e (s n err))
recovered e (Script.flush s) = Script.flush (recovered e s)
recovered e (Script.notes f s) = Script.notes f (recovered e s)

-- NewRecoveryMiddleware
unfoldable pub new_recovery_middleware : Middleware
new_recovery_middleware next r = recovered (Entry.panic_recovered r.method r.path) (next r)

-- The loop of Chain, with `i` middlewares left to apply.
unfoldable pub chain_from : List Middleware → ℕ → Handler → Handler
chain_from ms zero h = h
chain_from ms (suc i) h = chain_from ms i (elim (get_elem? ms i) [ none ↦ h | some m ↦ m h ])

unfoldable pub chain : List Middleware → Handler → Handler
unfolding chain_from
chain ms h = chain_from ms (length ms) h

-- The loop leaves the first of the list for the end.
chain_from-cons :
    (m : Middleware) (ms : List Middleware) (i : ℕ) (h : Handler)
    → chain_from (m ∷ ms) (suc i) h ≡ m (chain_from ms i h)
unfolding chain_from
chain_from-cons m ms zero h = refl
chain_from-cons m ms (suc i) h =
    chain_from-cons m ms i (elim (get_elem? ms i) [ none ↦ h | some n ↦ n h ])

-- The first middleware is the outermost.
pub chain-cons :
    (m : Middleware) (ms : List Middleware) (h : Handler) → chain (m ∷ ms) h ≡ m (chain ms h)
unfolding chain
chain-cons m ms h = chain_from-cons m ms (length ms) h

pub chain-nil : (h : Handler) → chain [] h ≡ h
unfolding chain chain_from
chain-nil h = refl
