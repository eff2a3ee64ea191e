-- ===== src/Middleware/Writers.antt =====
-- The response writers of internal/middleware/logging.go and metrics.go, between a handler and the
-- writer below it.
use smaug.Prelude.{ℕ, ◌+◌, Bool, true, if◌then◌else◌}
use smaug.Middleware.Response.{Script, status_ok}

pub record LoggingResponseWriter : Type 0 where
  pub status_code : ℕ
  pub bytes_written : ℕ
  pub header_written : Bool

-- LoggingResponseWriter.WriteHeader, as far as the writer's own fields go; it is passed on only
-- where they change.
unfoldable pub note_header : ℕ → LoggingResponseWriter → LoggingResponseWriter
note_header n w =
    if w.header_written then w else record w { header_written = true; status_code = n }

-- The calls that reach the writer below from a handler that is given a LoggingResponseWriter;
-- `at_end` is what the middleware does with its fields after the handler.
unfoldable pub logged : (LoggingResponseWriter → Script) → LoggingResponseWriter → Script → Script
unfolding note_header
logged at_end w Script.returns = at_end w
logged at_end w Script.panics = Script.panics
logged at_end w (Script.set_header k v s) = Script.set_header k v (logged at_end w s)
logged at_end w (Script.del_header k s) = Script.del_header k (logged at_end w s)
logged at_end w (Script.write_header n s) =
    let rest = logged at_end (note_header n w) s in
    if w.header_written then rest else Script.write_header n rest
logged at_end w (Script.write b s) =
    let body = Script.write b (λ n e.
      let w' = note_header status_ok w in
      logged at_end (record w' { bytes_written = w.bytes_written + n }) (s n e)) in
    if w.header_written then body else Script.write_header status_ok body
logged at_end w (Script.flush s) = Script.flush (logged at_end w s)
logged at_end w (Script.notes e s) = Script.notes e (logged at_end w s)

pub record MetricsResponseWriter : Type 0 where
  pub status_code : ℕ
  pub written : Bool

unfoldable pub count_header : ℕ → MetricsResponseWriter → MetricsResponseWriter
count_header n w = if w.written then w else record w { written = true; status_code = n }

-- The same of a handler that is given a MetricsResponseWriter.
unfoldable pub counted : (MetricsResponseWriter → Script) → MetricsResponseWriter → Script → Script
unfolding count_header
counted at_end w Script.returns = at_end w
counted at_end w Script.panics = Script.panics
counted at_end w (Script.set_header k v s) = Script.set_header k v (counted at_end w s)
counted at_end w (Script.del_header k s) = Script.del_header k (counted at_end w s)
counted at_end w (Script.write_header n s) =
    let rest = counted at_end (count_header n w) s in
    if w.written then rest else Script.write_header n rest
counted at_end w (Script.write b s) =
    let body = Script.write b (λ n e. counted at_end (count_header status_ok w) (s n e)) in
    if w.written then body else Script.write_header status_ok body
counted at_end w (Script.flush s) = Script.flush (counted at_end w s)
counted at_end w (Script.notes e s) = Script.notes e (counted at_end w s)
