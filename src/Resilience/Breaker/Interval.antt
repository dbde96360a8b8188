-- ===== src/Resilience/Breaker/Interval.antt =====
-- The backoff of crates/projections/src/resilience/circuit_breaker.rs.
use intuition_core.Base.{ℕ, ◌+◌, ◌/◌, ◌≤◌, ◌≡◌, min, some, arith}
use native.Mathlib.Nat.{mod-lt}
use intuition_core.Resilience.Breaker.{
  CircuitBreakerConfig, CircuitBreaker, half_open, passes, cap_nanos, next_probe_interval, check,
  record_failure,
}

-- A probe interval lies between half of its ceiling and the ceiling, and the ceiling is at most the
-- configured maximum.
pub next_probe_interval_bounds :
    (c : CircuitBreakerConfig) (attempt rnd : ℕ)
    → let cap = cap_nanos c attempt in
      (cap / 2 ≤ next_probe_interval c attempt rnd)
      × (next_probe_interval c attempt rnd ≤ cap)
      × (cap ≤ c.max_probe_interval)
unfolding next_probe_interval cap_nanos
next_probe_interval_bounds c attempt rnd = ground (arith, mod-lt rnd {m = cap_nanos c attempt / 2})

-- After a failed probe the breaker is open with the time of its first opening: once the longest probe
-- interval has passed since that time, the very next check lets a call through again, whatever interval
-- was drawn, so that no backoff is left.
pub check-record_failure_late :
    (cb : CircuitBreaker) (opened_at now rnd : ℕ)
    → cb.state ≡ half_open
    → cb.opened_at ≡ some opened_at
    → opened_at + cb.max_probe_interval ≤ now
    → ((check (record_failure cb now rnd) now).1 ≡ passes)
      × ((check (record_failure cb now rnd) now).0.state ≡ half_open)
unfolding check record_failure
check-record_failure_late cb opened_at now rnd probing since late =
    ground (arith, next_probe_interval_bounds cb.config (min (cb.open_count + 1) 4294967295) rnd)
