-- ===== src/Middleware/Metrics.antt =====
-- The metrics writer (internal/middleware/metrics.go) is the logging writer without the bytes.
use smaug.Prelude.{
  ℕ, ◌+◌, true, false, none, ◌≡◌, refl, ap, ◌∙◌, arith, if◌then◌else◌, Bool-cases, inl, inr,
}
use smaug.Middleware.Response.{Entry, Script, Request, Response, Handler, serve, status_ok}
use smaug.Middleware.Writers.{
  LoggingResponseWriter, MetricsResponseWriter, note_header, count_header, logged, counted,
}
use smaug.Middleware.Logging.{IsPlain, Agrees, response_entry, logged-serve}
use smaug.Middleware.Chain.{new_metrics_middleware}

abbrev as_metrics : LoggingResponseWriter → MetricsResponseWriter
as_metrics w = record { status_code = w.status_code; written = w.header_written }

as_metrics-note_header :
    (n : ℕ) (w : LoggingResponseWriter)
    → count_header n (as_metrics w) ≡ as_metrics (note_header n w)
unfolding count_header note_header
as_metrics-note_header n w = elim (Bool-cases w.header_written) [
  | inl e ↦ simp e refl
  | inr e ↦ simp e refl
]

module _ (at_end : MetricsResponseWriter → Script) where
  counted-logged :
      (s : Script) (w : LoggingResponseWriter)
      → counted at_end (as_metrics w) s ≡ logged (λ v. at_end (as_metrics v)) w s
  unfolding counted logged
  counted-logged Script.returns w = refl
  counted-logged Script.panics w = refl
  counted-logged (Script.set_header k v s) w = ap (Script.set_header k v) (counted-logged s w)
  counted-logged (Script.del_header k s) w = ap (Script.del_header k) (counted-logged s w)
  counted-logged (Script.write_header n s) w =
      ap (λ rest. if w.header_written then rest else Script.write_header n rest)
        (ap (λ v. counted at_end v s) (as_metrics-note_header n w)
          ∙ counted-logged s (note_header n w))
  counted-logged (Script.write b s) w =
      ap
        (λ k.
          if w.header_written
          then Script.write b k
          else Script.write_header status_ok (Script.write b k))
        (λ i n e.
          (ap (λ v. counted at_end v (s n e)) (as_metrics-note_header status_ok w)
              ∙ counted-logged (s n e)
                  (record (note_header status_ok w) { bytes_written = w.bytes_written + n }))
            i)
  counted-logged (Script.flush s) w = ap Script.flush (counted-logged s w)
  counted-logged (Script.notes e s) w = ap (Script.notes e) (counted-logged s w)

-- To a client a handler answers through the metrics middleware as it does alone, provided that it
-- sends no informational header and does not flush before its response has begun; and if it
-- returns, its method and the status that the client gets are recorded once, after all else.
new_metrics_middleware-serve :
    (h : Handler) (req : Request) (r : Response)
    → IsPlain false (h req)
    → (r.status ≡ none) × (r.written ≡ 0)
    → serve (new_metrics_middleware true h req) r ≡ (
      (serve (h req) r).0,
      response_entry (λ status bytes. Entry.recorded req.method status) (serve (h req) r),
      (serve (h req) r).2,
    )
unfolding new_metrics_middleware
new_metrics_middleware-serve h req r plain fresh =
    let w : LoggingResponseWriter = record {
      status_code = status_ok;
      bytes_written = 0;
      header_written = false;
    } in
    let unsent : Agrees w r = record {
      status = ground arith;
      unsent = λ e. refl;
      bytes = ground arith;
    } in
    ap (λ s. serve s r)
      (counted-logged (λ v. Script.notes (Entry.recorded req.method v.status_code) Script.returns)
        (h req) w)
    ∙ logged-serve (λ status bytes. Entry.recorded req.method status) (h req) w r plain unsent
