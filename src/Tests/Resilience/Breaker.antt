-- ===== src/Tests/Resilience/Breaker.antt =====
-- A breaker that opens at the second failure.
use intuition_core.Base.{◌≤◌, ◌<◌, ◌≡◌, ◌≢◌, refl, arith, some, [], ◌∷◌}
use intuition_core.Resilience.Breaker.{
  CircuitBreakerConfig, CircuitBreaker, closed, opened, half_open, passes, panics, new, check,
  record_failure, checks, succeeds, fails, run,
}
use intuition_core.Resilience.Breaker.Interval.{check-record_failure_late}
use intuition_core.Resilience.Breaker.Invariant.{
  IsUsable, IsValid, run-new-IsValid, failures, run-failures,
}

abbrev pub config : CircuitBreakerConfig
config = record {
  failure_threshold = 2;
  initial_probe_interval = 5000000000;
  max_probe_interval = 30000000000;
}

pub usable : IsUsable config
usable = record { positive = omega arith; reachable = omega arith }

-- Open since 100, with an interval of 10 seconds.
abbrev open_breaker : CircuitBreaker
open_breaker = record {
  name = "pg";
  config = config;
  inner = record {
    state = opened;
    consecutive_failures = 2;
    probe_interval = 10000000000;
    opened_at = some 100;
    open_count = 1;
  };
}

abbrev probing : CircuitBreaker
probing = record open_breaker {
  inner = record {
    state = half_open;
    consecutive_failures = 2;
    probe_interval = 10000000000;
    opened_at = some 100;
    open_count = 1;
  };
}

check-record_failure_late_example :
    ((check (record_failure probing 30000000100 7) 30000000100).1 ≡ passes)
    × ((check (record_failure probing 30000000100 7) 30000000100).0.state ≡ half_open)
check-record_failure_late_example =
    check-record_failure_late probing 100 30000000100 7 refl refl (omega arith)

run-new-IsValid_example :
    IsValid (run (new "pg" config) (fails 10 1 ∷ fails 20 2 ∷ checks 30 ∷ succeeds ∷ []))
    × ((check (run (new "pg" config) (fails 10 1 ∷ fails 20 2 ∷ checks 30 ∷ succeeds ∷ [])) 40).1
        ≢ panics)
run-new-IsValid_example =
    run-new-IsValid "pg" config (fails 10 1 ∷ fails 20 2 ∷ checks 30 ∷ succeeds ∷ []) 40 usable

run-failures_example :
    (2 < 2 → (run (new "pg" config) (failures ((10, 1) ∷ (20, 2) ∷ []))).state ≡ closed)
    × (2 ≤ 2 → (run (new "pg" config) (failures ((10, 1) ∷ (20, 2) ∷ []))).state ≡ opened)
run-failures_example = run-failures "pg" config ((10, 1) ∷ (20, 2) ∷ []) usable
