-- ===== src/Resilience/Retry.antt =====
-- crates/projections/src/resilience/retry.rs: the retry loop of all workers. What the operation
-- returns, the clock and the random numbers are given for each attempt; the loop returns what it did.
pub mod Rule
pub mod Totality
pub mod Sleeps
use Prim.Native.String.{String}
use intuition_core.Base.{
  ℕ, zero, suc, ◌+◌, ◌*◌, ◌%◌, ◌^◌, min, Bool, true, false, Option, none, some, List, [], ◌∷◌, ◌++◌,
  ltb, if◌then◌else◌, Result, ok, err,
}
use intuition_core.Errors.{
  ErrorClass, fatal, transient, circuit_protected, ProjectionError, circuit_open, classify,
}
use intuition_core.Resilience.Breaker.{
  CircuitBreaker, CircuitOpen, Checked, passes, panics, rejects, check, record_success,
  record_failure,
}

pub record RetryPolicy : Type 0 where
  pub max_retries : ℕ
  pub base_backoff_secs : ℕ
  pub max_backoff_secs : ℕ

unfoldable pub event_driven : RetryPolicy
event_driven = record { max_retries = 8; base_backoff_secs = 1; max_backoff_secs = 30 }

unfoldable pub batch : RetryPolicy
batch = record { max_retries = 5; base_backoff_secs = 2; max_backoff_secs = 30 }

unfoldable pub compute_jitter_ms : ℕ → ℕ → ℕ
compute_jitter_ms delay_secs random =
    let jitter = delay_secs * 500 + random % (delay_secs * 500 + 1) in delay_secs * 1000 + jitter

-- What the loop does to the outside, in order: a wait for the breaker's probe (nanoseconds), a call of
-- the operation, a sleep (milliseconds), a heartbeat.
pub data Effect : Type 0 where
  waited slept : ℕ → Effect
  called beat : Effect

-- What an attempt meets: `outcome` is the result of the operation if it is called, `none` for `Ok(())`.
pub record Attempt (X : Type 0) : Type 0 where
  pub checked_at : ℕ
  pub outcome : Option (ProjectionError X)
  pub failed_at : ℕ
  pub breaker_random : ℕ
  pub jitter_random : ℕ

-- How the loop ends: with a result, at the closing `unreachable!`, or by the breaker's panic.
pub data Ending (X : Type 0) : Type 0 where
  returns : Result (ProjectionError X) (Unit {0}) → Ending X
  falls_through panicked : Ending X

pub record Retried (X : Type 0) : Type 0 where
  pub ending : Ending X
  pub circuit_breaker : CircuitBreaker
  pub effects : List Effect

abbrev ends : {X : Type 0} → Ending X → CircuitBreaker → List Effect → Retried X
ends ending cb effects = record { ending = ending; circuit_breaker = cb; effects = effects }

abbrev after : {X : Type 0} → List Effect → Retried X → Retried X
after effects rest = record rest { effects = effects ++ rest.effects }

-- The heartbeat that follows a sleep, where one is configured.
abbrev pub pause : Bool → Effect → List Effect
pause heartbeat e = if heartbeat then e ∷ beat ∷ [] else e ∷ []

unfoldable pub next_delay : RetryPolicy → ℕ → ℕ
next_delay policy delay_secs = min (delay_secs * 2 % 2 ^ 64) policy.max_backoff_secs

module _ {X : Type 0} (policy : RetryPolicy) (heartbeat : Bool)
    (show_open : CircuitOpen → String) where
  -- A transient error: the breaker counts it; the loop goes on unless this was the last attempt.
  transient_error :
      (CircuitBreaker → ℕ → Retried X)
      → Bool
      → Attempt X
      → ProjectionError X
      → CircuitBreaker
      → ℕ
      → Retried X
  unfolding next_delay
  transient_error next true a e cb delay_secs =
      after (called ∷ pause heartbeat (slept (compute_jitter_ms delay_secs a.jitter_random)))
        (next (record_failure cb a.failed_at a.breaker_random) (next_delay policy delay_secs))
  transient_error next false a e cb delay_secs =
      ends (returns (err e)) (record_failure cb a.failed_at a.breaker_random) (called ∷ [])

  failed :
      (CircuitBreaker → ℕ → Retried X)
      → Bool
      → Attempt X
      → ProjectionError X
      → ErrorClass
      → CircuitBreaker
      → ℕ
      → Retried X
  unfolding transient_error
  failed next more a e transient cb delay_secs = transient_error next more a e cb delay_secs
  failed next more a e circuit_protected cb delay_secs = transient_error next more a e cb delay_secs
  failed next more a e fatal cb delay_secs = ends (returns (err e)) cb (called ∷ [])

  executed :
      (CircuitBreaker → ℕ → Retried X)
      → Bool
      → Attempt X
      → Option (ProjectionError X)
      → CircuitBreaker
      → ℕ
      → Retried X
  unfolding failed
  executed next more a none cb delay_secs = ends (returns (ok tt)) (record_success cb) (called ∷ [])
  executed next more a (some e) cb delay_secs = failed next more a e (classify e) cb delay_secs

  circuit_is_open :
      (CircuitBreaker → ℕ → Retried X) → Bool → CircuitOpen → CircuitBreaker → ℕ → Retried X
  unfolding next_delay
  circuit_is_open next true open_error cb delay_secs =
      after (pause heartbeat (waited open_error.next_probe_in))
        (next cb (next_delay policy delay_secs))
  circuit_is_open next false open_error cb delay_secs =
      ends (returns (err (circuit_open (show_open open_error)))) cb []

  checked :
      (CircuitBreaker → ℕ → Retried X) → Bool → Attempt X → Checked → CircuitBreaker → ℕ → Retried X
  unfolding executed circuit_is_open
  checked next more a passes cb delay_secs = executed next more a a.outcome cb delay_secs
  checked next more a panics cb delay_secs = ends panicked cb []
  checked next more a (rejects open_error) cb delay_secs =
      circuit_is_open next more open_error cb delay_secs

  unfoldable pub attempt_once :
      (CircuitBreaker → ℕ → Retried X) → Bool → Attempt X → CircuitBreaker → ℕ → Retried X
  unfolding checked
  attempt_once next more a cb delay_secs =
      let (cb', c) = check cb a.checked_at in checked next more a c cb' delay_secs

  -- `for attempt in attempt..=max_retries`, with the attempts that are left.
  pub attempts : (ℕ → Attempt X) → ℕ → ℕ → CircuitBreaker → ℕ → Retried X
  attempts env zero attempt cb delay_secs = ends falls_through cb []
  attempts env (suc left) attempt cb delay_secs =
      attempt_once (attempts env left (attempt + 1)) (ltb attempt policy.max_retries) (env attempt)
        cb delay_secs

  unfoldable pub retry_with_backoff : (ℕ → Attempt X) → CircuitBreaker → Retried X
  unfolding attempts
  retry_with_backoff env cb = attempts env policy.max_retries 1 cb policy.base_backoff_secs
