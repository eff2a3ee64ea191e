-- ===== src/Middleware/Recovery.antt =====
-- A request is answered even if its handler panics.
use smaug.Prelude.{
  ℕ, ltb, Str, str, Bool, true, false, List, [], ◌∷◌, ◌++◌, none, some, ◌≡◌, refl, ◌∙◌, arith,
  if◌then◌else◌, length,
}
use smaug.Prelude.Map.{Map, insert, delete}
use smaug.Middleware.Response.{
  Entry, Script, Response, serve, send_header, start_body, send_body, change_headers, taken,
  final_status, is_informational, status_ok, status_internal_server_error,
}
use smaug.Middleware.Chain.{recovered, http_error, internal_server_error}

abbrev pub internal_error : Script
internal_error = http_error internal_server_error status_internal_server_error

-- The status after a handler: what it sent, or 200 if it returned and 500 if it panicked.
abbrev pub answered : Response × List Entry × Bool → ℕ
answered (r, es, ok) = elim r.status [
  | none ↦ if ok then status_ok else status_internal_server_error
  | some n ↦ n
]

abbrev not_returned : Response → ℕ
not_returned r = answered (r, [], false)

not_returned-change_headers :
    (f : Map Str → Map Str) (r : Response) → not_returned (change_headers f r) ≡ not_returned r
unfolding change_headers
not_returned-change_headers f r = ground arith

not_returned-send_body :
    (b : Str) (r : Response)
    → final_status (send_body b (send_header status_internal_server_error r)) ≡ not_returned r
unfolding final_status send_header send_body start_body is_informational
not_returned-send_body b r = ground arith

internal_error-serve :
    (r : Response)
    → ((serve internal_error r).2 ≡ true)
      × (final_status (serve internal_error r).0 ≡ not_returned r)
unfolding http_error serve
internal_error-serve r =
    let delete_length = delete (str "Content-Length") in
    let deleted = change_headers delete_length r in
    let set_type = insert (str "Content-Type") (str "text/plain; charset=utf-8") in
    let typed = change_headers set_type deleted in
    let nosniff = insert (str "X-Content-Type-Options") (str "nosniff") in
    (
      refl,
      not_returned-send_body (internal_server_error ++ 10 ∷ []) (change_headers nosniff typed)
          ∙ not_returned-change_headers nosniff typed
          ∙ not_returned-change_headers set_type deleted
          ∙ not_returned-change_headers delete_length r,
    )

-- The deferred function leaves the handler's calls as they are, and ends a panic.
pub recovered-serve :
    (e : Entry) (s : Script) (r : Response)
    → ((serve (recovered e s) r).2 ≡ true)
      × (final_status (serve (recovered e s) r).0 ≡ answered (serve s r))
unfolding recovered serve
recovered-serve e Script.returns r = (refl, unfold final_status in ground arith)
recovered-serve e Script.panics r = internal_error-serve r
recovered-serve e (Script.set_header k v s) r = recovered-serve e s (change_headers (insert k v) r)
recovered-serve e (Script.del_header k s) r = recovered-serve e s (change_headers (delete k) r)
recovered-serve e (Script.write_header n s) r = recovered-serve e s (send_header n r)
recovered-serve e (Script.write b s) r =
    recovered-serve e (s (taken b r) (ltb (taken b r) (length b))) (send_body b r)
recovered-serve e (Script.flush s) r = recovered-serve e s (start_body r)
recovered-serve e (Script.notes f s) r = recovered-serve e s r
