-- ===== src/Resilience.antt =====
-- crates/projections/src/resilience: circuit breaker, retry loop, supervisor and watchdog.
-- Times and durations are numbers; the clock and the random numbers are arguments of each call.
pub mod Breaker
pub mod Watchdog
pub mod Supervisor
pub mod Retry
