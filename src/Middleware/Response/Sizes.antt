-- ===== src/Middleware/Response/Sizes.antt =====
-- The size of the body that a client gets, against what the calls of Write report.
use smaug.Prelude.{
  ℕ, ltb, Str, true, false, Bool-cases, ◌≡◌, ◌⊎◌, inl, inr, arith, length, take, length-append,
  length-take,
}
use smaug.Prelude.Map.{Map, insert, delete}
use smaug.Middleware.Response.{
  Script, Response, serve, send_header, start_body, send_body, change_headers, taken,
}

-- The request is not a HEAD request, and the client has the bytes that were reported.
abbrev IsSized : Response → Type 0
IsSized r = (r.head ≡ false) × (length r.body ≡ r.written)

IsSized-send_header : (n : ℕ) (r : Response) → IsSized r → IsSized (send_header n r)
unfolding send_header
IsSized-send_header n r v = ground arith

IsSized-start_body : (r : Response) → IsSized r → IsSized (start_body r)
unfolding start_body
IsSized-start_body r v = ground arith

IsSized-change_headers :
    (f : Map Str → Map Str) (r : Response) → IsSized r → IsSized (change_headers f r)
unfolding change_headers
IsSized-change_headers f r v = ground arith

IsSized-send_body : (b : Str) (r : Response) → IsSized r → IsSized (send_body b r)
unfolding send_body start_body taken
IsSized-send_body b r v =
    ground (arith, length-append r.body (take (taken b r) b), length-take (taken b r) b)

serve-IsSized : (s : Script) (r : Response) → IsSized r → IsSized (serve s r).0
unfolding serve
serve-IsSized Script.returns r v = v
serve-IsSized Script.panics r v = v
serve-IsSized (Script.set_header k x s) r v =
    serve-IsSized s (change_headers (insert k x) r) (IsSized-change_headers (insert k x) r v)
serve-IsSized (Script.del_header k s) r v =
    serve-IsSized s (change_headers (delete k) r) (IsSized-change_headers (delete k) r v)
serve-IsSized (Script.write_header n s) r v =
    serve-IsSized s (send_header n r) (IsSized-send_header n r v)
serve-IsSized (Script.write b s) r v =
    serve-IsSized (s (taken b r) (ltb (taken b r) (length b))) (send_body b r)
      (IsSized-send_body b r v)
serve-IsSized (Script.flush s) r v = serve-IsSized s (start_body r) (IsSized-start_body r v)
serve-IsSized (Script.notes e s) r v = serve-IsSized s r v

-- What a handler has sent to a client is what was reported, unless the request is a HEAD request.
pub serve-written :
    (s : Script) (r : Response)
    → length r.body ≡ r.written
    → (r.head ≡ true) ⊎ (length (serve s r).0.body ≡ (serve s r).0.written)
serve-written s r v = elim (Bool-cases r.head) [
  | inl head ↦ inl head
  | inr other ↦ inr (serve-IsSized s r (other, v)).1
]
