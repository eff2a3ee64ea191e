-- ===== src/Client.antt =====
-- internal/client: the clients of the Gwaihir service and of the servers' sleep endpoints.
pub mod Gwaihir
pub mod Sleep
