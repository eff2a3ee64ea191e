-- ===== src/Management.antt =====
-- internal/management: the endpoints that report on the program, and the servers that serve them.
pub mod Handlers
pub mod Server
pub mod Metrics
