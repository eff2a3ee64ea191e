-- ===== src/Middleware/Response.antt =====
-- What internal/middleware relies on of net/http. A handler is arbitrary code that calls its
-- http.ResponseWriter: a tree of such calls that branches on what a Write returns.
pub mod Sizes
use smaug.Prelude.{
  ℕ, ◌+◌, ◌-◌, ltb, leb, Str, Bool, true, false, ◌&&◌, ◌||◌, ◌==◌, not, List, [], ◌∷◌, ◌++◌, Option,
  none, some, if◌then◌else◌, length, take,
}
use smaug.Prelude.Map.{Map, insert, delete}

-- What is logged or counted.
pub data Entry : Type 0 where
  request : Str → Str → Str → Str → Entry  -- request ID, method, path, client IP
  response : Str → ℕ → ℕ → Entry  -- request ID, status, bytes
  panic_recovered : Str → Str → Entry  -- method, path
  recorded : Str → ℕ → Entry  -- method, status

-- The calls that a handler makes until it returns or panics. A Write returns how many bytes were
-- taken, and whether there is an error.
pub data Script : Type 0 where
  returns panics : Script
  set_header : Str → Str → Script → Script
  del_header : Str → Script → Script
  write_header : ℕ → Script → Script
  write : Str → (ℕ → Bool → Script) → Script
  flush : Script → Script
  notes : Entry → Script → Script

pub record Request : Type 0 where
  pub method : Str
  pub path : Str
  pub header : Map Str
  pub remote_addr : Str
  pub request_id : Option Str  -- the value in the request's context

abbrev pub Handler : Type 0
Handler = Request → Script

-- What the client gets: `status` once the header is sent. `head` tells whether the request is a HEAD
-- request, `room` is how many bytes the connection still takes, and `written` counts the bytes that
-- the calls of Write have reported.
pub record Response : Type 0 where
  pub headers : Map Str
  pub status : Option ℕ
  pub informational : List ℕ
  pub body : Str
  pub head : Bool
  pub room : ℕ
  pub written : ℕ

abbrev is_set : Option ℕ → Bool
is_set none = false
is_set (some n) = true

abbrev pub status_ok : ℕ
status_ok = 200

abbrev pub status_internal_server_error : ℕ
status_internal_server_error = 500

-- 1xx but for 101: a header of its own, before that of the response.
unfoldable pub is_informational : ℕ → Bool
is_informational n = leb 100 n && leb n 199 && not (n == 101)

-- WriteHeader of the server's own writer: the first status counts.
unfoldable pub send_header : ℕ → Response → Response
send_header n r =
    if is_set r.status
    then r
    else if is_informational n
    then record r { informational = r.informational ++ n ∷ [] }
    else record r { status = some n }

-- What Write and Flush do first.
unfoldable pub start_body : Response → Response
start_body r = if is_set r.status then r else record r { status = some status_ok }

-- A response with a status 1xx, 204 or 304 has no body.
unfoldable pub bars_body : Option ℕ → Bool
bars_body none = false
bars_body (some n) = (leb 100 n && leb n 199) || n == 204 || n == 304

-- What Write returns: nothing is taken where there is no body, and all of it for a HEAD request.
unfoldable pub taken : Str → Response → ℕ
unfolding bars_body
taken b r =
    if bars_body r.status
    then 0
    else if r.head
    then length b
    else if leb (length b) r.room
    then length b
    else r.room

-- The bytes of the answer to a HEAD request are dropped.
unfoldable pub send_body : Str → Response → Response
unfolding start_body taken
send_body b r =
    let r' = start_body r in
    let r'' = record r' { written = r.written + taken b r } in
    if r.head
    then r''
    else record r'' { body = r.body ++ take (taken b r) b; room = r.room - taken b r }

-- A change of the headers after they are sent is lost.
unfoldable pub change_headers : (Map Str → Map Str) → Response → Response
change_headers f r = if is_set r.status then r else record r { headers = f r.headers }

abbrev pub noting : Entry → Response × List Entry × Bool → Response × List Entry × Bool
noting e (r, es, ok) = (r, e ∷ es, ok)

-- The calls against the server's writer: what the client gets, what is logged, and whether the
-- handler returned.
unfoldable pub serve : Script → Response → Response × List Entry × Bool
unfolding send_header start_body send_body change_headers taken
serve Script.returns r = (r, [], true)
serve Script.panics r = (r, [], false)
serve (Script.set_header k v s) r = serve s (change_headers (insert k v) r)
serve (Script.del_header k s) r = serve s (change_headers (delete k) r)
serve (Script.write_header n s) r = serve s (send_header n r)
serve (Script.write b s) r = serve (s (taken b r) (ltb (taken b r) (length b))) (send_body b r)
serve (Script.flush s) r = serve s (start_body r)
serve (Script.notes e s) r = noting e (serve s r)

-- The status that the client sees of a handler that has returned: the server sends 200 if nothing
-- was sent. (Where a handler has panicked and nothing recovered it, no response is sent.)
unfoldable pub final_status : Response → ℕ
final_status r = elim r.status [ none ↦ status_ok | some n ↦ n ]
