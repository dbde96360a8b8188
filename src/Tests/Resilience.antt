-- ===== src/Tests/Resilience.antt =====
-- Runs of the breaker, the watchdog, the supervisor and the retry loop.
pub mod Breaker
pub mod Watchdog
pub mod Supervisor
pub mod Retry
