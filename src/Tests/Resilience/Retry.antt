-- ===== src/Tests/Resilience/Retry.antt =====
-- A call that fails once and then succeeds.
use Prim.Native.String.{String}
use intuition_core.Base.{ℕ, zero, suc, ◌≤◌, refl, arith, true, Option, some, none}
use intuition_core.Errors.{ProjectionError, sink}
use intuition_core.Resilience.Breaker.{CircuitBreaker, CircuitOpen, closed}
use intuition_core.Resilience.Breaker.Invariant.{Serves}
use intuition_core.Resilience.Retry.{RetryPolicy, Attempt, retry_with_backoff}
use intuition_core.Resilience.Retry.Totality.{IsGrounded, calls, retry_with_backoff-Settled}
use intuition_core.Resilience.Retry.Sleeps.{Beats, retry_with_backoff-Beats}
use intuition_core.Tests.Resilience.Breaker.{config, usable}

abbrev pub policy : RetryPolicy
policy = record { max_retries = 8; base_backoff_secs = 1; max_backoff_secs = 30 }

abbrev pub show_open : CircuitOpen → String
show_open o = "open"

abbrev outcome_of : ℕ → Option (ProjectionError String)
outcome_of (suc zero) = some (sink "timeout")
outcome_of _ = none

abbrev pub attempts : ℕ → Attempt String
attempts k = record {
  checked_at = k;
  outcome = outcome_of k;
  failed_at = k;
  breaker_random = 3;
  jitter_random = 4;
}

abbrev pub breaker : CircuitBreaker
breaker = record {
  name = "pg";
  config = config;
  inner = record {
    state = closed;
    consecutive_failures = 0;
    probe_interval = 5000000000;
    opened_at = none;
    open_count = 0;
  };
}

pub serves : Serves config breaker
serves = record {
  valid = record {
    usable = usable;
    timed = λ n. absurd (n refl);
    bounded = λ n. absurd (n refl);
    untripped = λ _. omega arith;
    fresh_interval = λ _. refl;
    fresh_count = λ _. refl;
    fresh_time = λ _. refl;
  };
  configured = refl;
}

retry_with_backoff-Settled_example :
    IsGrounded policy true show_open attempts
      (retry_with_backoff policy true show_open attempts breaker).ending
    × (calls (retry_with_backoff policy true show_open attempts breaker).effects ≤ 8)
    × Serves config (retry_with_backoff policy true show_open attempts breaker).circuit_breaker
retry_with_backoff-Settled_example =
    retry_with_backoff-Settled policy true show_open attempts config breaker (omega arith) serves

-- No pause takes longer than a minute, half of the watchdog's default threshold.
retry_with_backoff-Beats_example :
    Beats 60000000000 (retry_with_backoff policy true show_open attempts breaker).effects
retry_with_backoff-Beats_example =
    retry_with_backoff-Beats policy show_open attempts config breaker (omega arith) (omega arith)
      serves
