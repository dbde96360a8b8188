-- ===== src/Resilience/Retry/Totality.antt =====
-- How a call of the loop of crates/projections/src/resilience/retry.rs ends.
use Prim.Native.String.{String}
use intuition_core.Base.{
  pos-suc, ℕ, suc, ◌+◌, ◌≤◌, ◌<◌, ◌≡◌, ◌⊎◌, inl, inr, refl, Bool, true, false, none, some, List, [],
  ◌∷◌, ◌++◌, arith, ok, err,
}
use intuition_core.Errors.{circuit_open}
use intuition_core.Resilience.Breaker.{CircuitBreaker, CircuitBreakerConfig, CircuitOpen}
use intuition_core.Resilience.Breaker.Invariant.{Serves}
use intuition_core.Resilience.Retry.{
  RetryPolicy, Attempt, Effect, called, slept, waited, beat, Retried, Ending, returns,
  falls_through, panicked, retry_with_backoff, pause, compute_jitter_ms,
}
use intuition_core.Resilience.Retry.Rule.{Cases, retry_with_backoff-P}

-- The calls of the operation.
abbrev pub calls : List Effect → ℕ
calls [] = 0
calls (called ∷ es) = suc (calls es)
calls (waited _ ∷ es) = calls es
calls (slept _ ∷ es) = calls es
calls (beat ∷ es) = calls es

pub calls-slept :
    (heartbeat : Bool) (n : ℕ) (es : List Effect)
    → calls (pause heartbeat (slept n) ++ es) ≡ calls es
calls-slept true n es = refl
calls-slept false n es = refl

pub calls-waited :
    (heartbeat : Bool) (n : ℕ) (es : List Effect)
    → calls (pause heartbeat (waited n) ++ es) ≡ calls es
calls-waited true n es = refl
calls-waited false n es = refl

module _ {X : Type 0} (policy : RetryPolicy) (heartbeat : Bool) (show_open : CircuitOpen → String)
    (env : ℕ → Attempt X) where
  -- Where a result comes from: a success of some attempt; an error of some attempt, or the refusal of an
  -- open breaker.
  abbrev pub IsGrounded : Ending X → Type 0
  IsGrounded (returns (ok _)) = (k : ℕ) × ((env k).outcome ≡ none)
  IsGrounded (returns (err e)) =
      ((k : ℕ) × ((env k).outcome ≡ some e))
      ⊎ ((o : CircuitOpen) × (e ≡ circuit_open (show_open o)))
  IsGrounded falls_through = ⊥
  IsGrounded panicked = ⊥

  pub record Settled (c : CircuitBreakerConfig) (left : ℕ) (r : Retried X) : Type 0 where
    pub grounded : IsGrounded r.ending
    pub few : calls r.effects ≤ suc left
    pub serves : Serves c r.circuit_breaker

  settles :
      (c : CircuitBreakerConfig) (longest : ℕ)
      → Cases policy heartbeat show_open env c longest (Settled c)
  settles c longest = record {
    success = λ left k cb o s. record { grounded = (k, o); few = omega arith; serves = s };
    fatal_end =
        λ left k cb e o q s. record { grounded = inl (k, o); few = omega arith; serves = s };
    transient_end = λ k cb e o s. record { grounded = inl (k, o); few = omega arith; serves = s };
    transient_next = λ left k delay rest d p. record {
      grounded = p.grounded;
      few = omega (
        arith,
        calls-slept heartbeat (compute_jitter_ms delay (env k).jitter_random) rest.effects,
        p.few,
      );
      serves = p.serves;
    };
    open_end = λ cb o s. record { grounded = inr (o, refl); few = omega arith; serves = s };
    open_next = λ left n rest d p. record {
      grounded = p.grounded;
      few = omega (arith, calls-waited heartbeat n rest.effects, p.few);
      serves = p.serves;
    };
  }

-- With at least one attempt allowed and a valid breaker, the loop always ends with a result: `Ok(())`
-- only where an attempt's operation returned it, an error only where an attempt's operation returned
-- that error or the breaker was open; the closing `unreachable!` and the breaker's panic are never
-- reached. The operation is called at most `max_retries` times, and the breaker is left valid, with
-- its configuration.
pub retry_with_backoff-Settled :
    {X : Type 0} (policy : RetryPolicy) (heartbeat : Bool) (show_open : CircuitOpen → String)
    (env : ℕ → Attempt X) (c : CircuitBreakerConfig) (cb : CircuitBreaker)
    → 0 < policy.max_retries
    → Serves c cb
    → IsGrounded policy heartbeat show_open env
        (retry_with_backoff policy heartbeat show_open env cb).ending
      × (calls (retry_with_backoff policy heartbeat show_open env cb).effects ≤ policy.max_retries)
      × Serves c (retry_with_backoff policy heartbeat show_open env cb).circuit_breaker
retry_with_backoff-Settled policy heartbeat show_open env c cb positive v =
    let longest = policy.base_backoff_secs + policy.max_backoff_secs in
    let (left, e) = pos-suc policy.max_retries positive in
    let s =
      retry_with_backoff-P policy heartbeat show_open env c longest
        (Settled policy heartbeat show_open env c)
        (settles policy heartbeat show_open env c longest) (omega arith) left cb e (omega arith)
        v in
    (s.grounded, omega (arith, s.few, e), s.serves)
