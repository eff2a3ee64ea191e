-- ===== src/Middleware/Logging.antt =====
-- What the logging writer changes of a response (nothing), and what it logs.
use smaug.Prelude.{
  ℕ, ◌+◌, ◌≤◌, ltb, Str, Bool, true, false, List, [], ◌∷◌, ◌++◌, none, some, ◌≡◌, refl, ap, sym,
  ◌∙◌, arith, if◌then◌else◌, length, Bool-cases, inl, inr,
}
use smaug.Prelude.Map.{Map, insert, delete}
use smaug.Middleware.Response.{
  Entry, Script, Response, serve, send_header, start_body, send_body, change_headers, taken,
  bars_body, noting, final_status, is_informational, status_ok,
}
use smaug.Middleware.Writers.{LoggingResponseWriter, note_header, logged}

-- A handler that sends no informational header and does not flush before it has begun its response;
-- `begun` tells whether it has.
abbrev pub IsPlain : Bool → Script → Type 0
IsPlain begun Script.returns = Unit
IsPlain begun Script.panics = Unit
IsPlain begun (Script.set_header k v s) = IsPlain begun s
IsPlain begun (Script.del_header k s) = IsPlain begun s
IsPlain begun (Script.write_header n s) = (200 ≤ n) × IsPlain true s
IsPlain begun (Script.write b s) = (n : ℕ) (e : Bool) → IsPlain true (s n e)
IsPlain begun (Script.flush s) = (begun ≡ true) × IsPlain begun s
IsPlain begun (Script.notes e s) = IsPlain begun s

-- The writer's fields say what has been sent.
pub record Agrees (w : LoggingResponseWriter) (r : Response) : Type 0 where
  pub status : r.status ≡ (if w.header_written then some w.status_code else none)
  pub unsent : w.header_written ≡ false → w.status_code ≡ status_ok
  pub bytes : r.written ≡ w.bytes_written

Agrees-change_headers :
    (w : LoggingResponseWriter) (r : Response) (f : Map Str → Map Str)
    → Agrees w r
    → Agrees w (change_headers f r)
unfolding change_headers
Agrees-change_headers w r f a = record {
  status = ground (arith, a.status);
  unsent = a.unsent;
  bytes = ground (arith, a.bytes);
}

Agrees-send_header :
    (w : LoggingResponseWriter) (r : Response) (n : ℕ)
    → 200 ≤ n
    → Agrees w r
    → Agrees (note_header n w) (send_header n r)
unfolding note_header send_header is_informational
Agrees-send_header w r n h a = record {
  status = ground (arith, a.status);
  unsent = ground (arith, a.unsent);
  bytes = ground (arith, a.bytes, a.status);
}

-- A second header is dropped by both.
header_sent :
    (w : LoggingResponseWriter) (r : Response) (n : ℕ)
    → Agrees w r
    → w.header_written ≡ true
    → (send_header n r ≡ r) × (note_header n w ≡ w) × (start_body r ≡ r)
unfolding note_header send_header start_body
header_sent w r n a e = ground (arith, a.status)

-- The guard passes a header on where the writer below would take it.
passed :
    (w : LoggingResponseWriter) (r : Response) (n : ℕ) (rest : Script)
    → Agrees w r
    → serve (if w.header_written then rest else Script.write_header n rest) r
      ≡ serve rest (send_header n r)
unfolding serve
passed w r n rest a = elim (Bool-cases w.header_written) [
  | inl sent ↦ rw sent (ap (serve rest) (sym (header_sent w r n a sent).0))
  | inr unsent ↦ rw unsent refl
]

after_header :
    (b : Str) (r : Response)
    → (taken b (send_header status_ok r) ≡ taken b r)
      × (send_body b (send_header status_ok r) ≡ send_body b r)
unfolding send_body send_header start_body taken bars_body is_informational
after_header b r = ground arith

Agrees-send_body :
    (w : LoggingResponseWriter) (r : Response) (b : Str)
    → Agrees w r
    → Agrees
        (record (note_header status_ok w) { bytes_written = w.bytes_written + taken b r })
        (send_body b r)
unfolding send_body start_body taken note_header
Agrees-send_body w r b a = record {
  status = ground (arith, a.status);
  unsent = ground (arith, a.unsent);
  bytes = ground (arith, a.bytes);
}

note_header-written : (n : ℕ) (w : LoggingResponseWriter) → (note_header n w).header_written ≡ true
unfolding note_header
note_header-written n w = ground arith

-- The entry has the status and the bytes that the writer noted.
module _ (entry : ℕ → ℕ → Entry) where
  abbrev pub note_response : LoggingResponseWriter → Script
  note_response w = Script.notes (entry w.status_code w.bytes_written) Script.returns

  -- The entries of a handler, and one of its response if it returns.
  abbrev pub response_entry : Response × List Entry × Bool → List Entry
  response_entry (r, es, ok) = es ++ (if ok then entry (final_status r) r.written ∷ [] else [])

  pub logged-serve :
      (s : Script) (w : LoggingResponseWriter) (r : Response)
      → IsPlain w.header_written s
      → Agrees w r
      → serve (logged note_response w s) r
        ≡ ((serve s r).0, response_entry (serve s r), (serve s r).2)
  unfolding logged serve final_status
  logged-serve Script.returns w r p a = ground (arith, a.status, a.unsent, a.bytes)
  logged-serve Script.panics w r p a = refl
  logged-serve (Script.set_header k v s) w r p a =
      logged-serve s w (change_headers (insert k v) r) p (Agrees-change_headers w r (insert k v) a)
  logged-serve (Script.del_header k s) w r p a =
      logged-serve s w (change_headers (delete k) r) p (Agrees-change_headers w r (delete k) a)
  logged-serve (Script.write_header n s) w r (final, p) a =
      passed w r n _ a
      ∙ logged-serve s (note_header n w) (send_header n r) (rw (note_header-written n w) p)
          (Agrees-send_header w r n final a)
  logged-serve (Script.write b s) w r p a =
      let next : ℕ → LoggingResponseWriter =
        λ n. record (note_header status_ok w) { bytes_written = w.bytes_written + n } in
      let run : ℕ → Response → Response × List Entry × Bool =
        λ n r'. serve (logged note_response (next n) (s n (ltb n (length b)))) r' in
      let (same, sent) = after_header b r in
      passed w r status_ok _ a
      ∙ ap (λ n. run n (send_body b (send_header status_ok r))) same
      ∙ ap (run (taken b r)) sent
      ∙ logged-serve (s (taken b r) (ltb (taken b r) (length b))) (next (taken b r)) (send_body b r)
          (rw (note_header-written status_ok w) (p (taken b r) (ltb (taken b r) (length b))))
          (Agrees-send_body w r b a)
  logged-serve (Script.flush s) w r (sent, p) a =
      let same = (header_sent w r status_ok a sent).2 in
      logged-serve s w (start_body r) p (rw same a)
  logged-serve (Script.notes e s) w r p a = ap (noting e) (logged-serve s w r p a)

-- Whatever a handler does after an informational header, the client's status is 200.
module _ (entry : ℕ → ℕ → Entry) where
  abbrev pub Is200 : Response → Type 0
  Is200 r = final_status r ≡ status_ok

  -- Writing and flushing send no other status than 200.
  kept_200 :
      (r : Response) (b : Str) (f : Map Str → Map Str)
      → Is200 r
      → Is200 (start_body r) × Is200 (send_body b r) × Is200 (change_headers f r)
  unfolding start_body send_body change_headers final_status
  kept_200 r b f h = ground arith

  dropped :
      (w : LoggingResponseWriter) (r : Response) (rest header : Script)
      → w.header_written ≡ true
      → Is200 (serve rest r).0
      → Is200 (serve (if w.header_written then rest else header) r).0
  dropped w r rest header sent h = rw sent h

  pub stuck_at_200 :
      (s : Script) (w : LoggingResponseWriter) (r : Response)
      → w.header_written ≡ true
      → Is200 r
      → Is200 (serve (logged (note_response entry) w s) r).0
  unfolding logged serve
  stuck_at_200 Script.returns w r sent h = h
  stuck_at_200 Script.panics w r sent h = h
  stuck_at_200 (Script.set_header k v s) w r sent h =
      stuck_at_200 s w (change_headers (insert k v) r) sent (kept_200 r [] (insert k v) h).2
  stuck_at_200 (Script.del_header k s) w r sent h =
      stuck_at_200 s w (change_headers (delete k) r) sent (kept_200 r [] (delete k) h).2
  stuck_at_200 (Script.write_header n s) w r sent h =
      dropped w r _ _ sent (stuck_at_200 s (note_header n w) r (note_header-written n w) h)
  stuck_at_200 (Script.write b s) w r sent h = dropped w r _ _ sent (
      stuck_at_200 (s (taken b r) (ltb (taken b r) (length b)))
        (record (note_header status_ok w) { bytes_written = w.bytes_written + taken b r })
        (send_body b r) (note_header-written status_ok w) (kept_200 r b (λ m. m) h).1)
  stuck_at_200 (Script.flush s) w r sent h =
      stuck_at_200 s w (start_body r) sent (kept_200 r [] (λ m. m) h).0
  stuck_at_200 (Script.notes e s) w r sent h = stuck_at_200 s w r sent h
