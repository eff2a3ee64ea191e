-- ===== src/Health.antt =====
-- internal/health and internal/store: the health checks and what is known of the servers' health.
pub mod Store
pub mod Checker
pub mod Manager
pub mod Verdicts
pub mod History
pub mod Loop
pub mod Workers
