-- ===== src/Tests.antt =====
-- Concrete inputs, and the theorems at work on them.
pub mod Data
pub mod Goroutines
pub mod Pipeline
pub mod Serving
mod Routes
mod Waking
mod Idle
mod Wol
mod Health
mod Sleeping
mod Configs
mod Manager
mod Http
mod Setup
mod Watching
