-- ===== src/Infrastructure.antt =====
-- internal/infrastructure: the logger and the metrics registry.
pub mod Logger
pub mod Metrics
