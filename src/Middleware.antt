-- ===== src/Middleware.antt =====
-- internal/middleware: what stands between the HTTP server and the handler of a route.
pub mod Response
pub mod Writers
pub mod Logging
pub mod Recovery
pub mod Chain
pub mod Metrics
pub mod Answers
