-- ===== src/Proxy.antt =====
-- internal/proxy: routes, their listeners, waking and sleeping.
pub mod Reload
pub mod IdleTracker
pub mod WakeCoordinator
pub mod RouteManager
pub mod SleepCoordinator
pub mod Handler
pub mod Watcher
pub mod Answers
pub mod IdleSleep
