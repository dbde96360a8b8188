-- ===== src/Resilience/Retry/Sleeps.antt =====
-- How long the loop of crates/projections/src/resilience/retry.rs is silent.
use Prim.Native.String.{String}
use intuition_core.Base.{pos-suc, max, ℕ, ◌*◌, ◌≤◌, ◌<◌, true, List, [], ◌∷◌, arith}
use intuition_core.Resilience.Breaker.{CircuitBreaker, CircuitBreakerConfig, CircuitOpen}
use intuition_core.Resilience.Breaker.Invariant.{Serves}
use intuition_core.Resilience.Retry.{
  RetryPolicy, Attempt, Effect, called, slept, waited, beat, retry_with_backoff, compute_jitter_ms,
}
use intuition_core.Resilience.Retry.Rule.{Cases, retry_with_backoff-P}

-- The sleep for a delay of d seconds takes between 1.5 and 2 times d, whatever the random number.
pub compute_jitter_ms_bounds :
    (delay_secs random : ℕ)
    → (delay_secs * 1500 ≤ compute_jitter_ms delay_secs random)
      × (compute_jitter_ms delay_secs random ≤ delay_secs * 2000)
unfolding compute_jitter_ms
compute_jitter_ms_bounds d random = ground arith

-- Every pause is at most `longest` nanoseconds and is followed at once by a heartbeat.
abbrev pub Beats : ℕ → List Effect → Type 0
Beats longest [] = Unit {0}
Beats longest (called ∷ es) = Beats longest es
Beats longest (beat ∷ es) = Beats longest es
Beats longest (slept ms ∷ beat ∷ es) = (ms * 1000000 ≤ longest) × Beats longest es
Beats longest (waited ns ∷ beat ∷ es) = (ns ≤ longest) × Beats longest es
Beats longest (slept _ ∷ _) = ⊥
Beats longest (waited _ ∷ _) = ⊥

module _ {X : Type 0} (policy : RetryPolicy) (show_open : CircuitOpen → String)
    (env : ℕ → Attempt X) (c : CircuitBreakerConfig) where
  -- The longest pause: twice the longest backoff, or the longest interval of the breaker (ns).
  abbrev pub longest_pause : ℕ
  longest_pause = max (policy.max_backoff_secs * 2000000000) c.max_probe_interval

  beats :
      Cases policy true show_open env c policy.max_backoff_secs
        (λ _ r. Beats longest_pause r.effects)
  beats = record {
    success = λ left k cb o s. tt;
    fatal_end = λ left k cb e o q s. tt;
    transient_end = λ k cb e o s. tt;
    transient_next = λ left k delay rest d p.
        (omega (arith, (compute_jitter_ms_bounds delay (env k).jitter_random).1, d), p);
    open_end = λ cb o s. tt;
    open_next = λ left n rest d p. (omega (arith, d), p);
  }

  -- With a heartbeat, every sleep of the loop and every wait for the breaker is followed at once by a
  -- beat, and takes at most twice the policy's longest backoff, or the breaker's longest probe
  -- interval where that is more: provided at least one attempt is allowed, the first backoff is not
  -- above the longest, and the breaker is valid.
  pub retry_with_backoff-Beats :
      (cb : CircuitBreaker)
      → 0 < policy.max_retries
      → policy.base_backoff_secs ≤ policy.max_backoff_secs
      → Serves c cb
      → Beats longest_pause (retry_with_backoff policy true show_open env cb).effects
  retry_with_backoff-Beats cb positive capped v =
      let (left, e) = pos-suc policy.max_retries positive in
      retry_with_backoff-P policy true show_open env c policy.max_backoff_secs
        (λ _ r. Beats longest_pause r.effects) beats (omega arith) left cb e capped v
