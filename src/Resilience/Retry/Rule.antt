-- ===== src/Resilience/Retry/Rule.antt =====
-- One rule for the loop of crates/projections/src/resilience/retry.rs: what holds at each of its ends,
-- and is kept by each attempt that goes on, holds of a call.
use Prim.Native.String.{String}
use intuition_core.Base.{
  ℕ, zero, suc, ◌+◌, ◌≤◌, ◌≡◌, ◌≢◌, refl, Bool, true, false, Option, none, some, [], ◌∷◌, arith,
  ltb, lt→ltb, le→not-ltb, subst, sym, ok, err,
}
use intuition_core.Errors.{ErrorClass, fatal, ProjectionError, circuit_open, classify}
use intuition_core.Resilience.Breaker.{
  CircuitBreaker, CircuitBreakerConfig, CircuitOpen, Checked, passes, panics, rejects, check,
}
use intuition_core.Resilience.Breaker.Invariant.{
  Serves, check-Serves, record_failure-Serves, record_success-Serves, check-ne-panics,
  check-rejects_wait,
}
use intuition_core.Resilience.Retry.{
  RetryPolicy, Attempt, called, slept, waited, Retried, returns, ends, after, pause,
  compute_jitter_ms, next_delay, failed, executed, checked, attempt_once, attempts,
  retry_with_backoff,
}

-- What is to be shown of a call with the number of attempts left after the present one, case by case.
pub record Cases {X : Type 0} (policy : RetryPolicy) (heartbeat : Bool)
    (show_open : CircuitOpen → String) (env : ℕ → Attempt X) (c : CircuitBreakerConfig)
    (longest : ℕ) (P : ℕ → Retried X → Type 0) : Type 0 where
  pub success :
      (left k : ℕ) (cb : CircuitBreaker)
      → (env k).outcome ≡ none
      → Serves c cb
      → P left (ends (returns (ok tt)) cb (called ∷ []))
  pub fatal_end :
      (left k : ℕ) (cb : CircuitBreaker) (e : ProjectionError X)
      → (env k).outcome ≡ some e
      → classify e ≡ fatal
      → Serves c cb
      → P left (ends (returns (err e)) cb (called ∷ []))
  pub transient_end :
      (k : ℕ) (cb : CircuitBreaker) (e : ProjectionError X)
      → (env k).outcome ≡ some e
      → Serves c cb
      → P 0 (ends (returns (err e)) cb (called ∷ []))
  pub transient_next :
      (left k delay : ℕ) (rest : Retried X)
      → delay ≤ longest
      → P left rest
      → P (suc left) (
          after
            (called ∷ pause heartbeat (slept (compute_jitter_ms delay (env k).jitter_random)))
            rest)
  pub open_end :
      (cb : CircuitBreaker) (o : CircuitOpen)
      → Serves c cb
      → P 0 (ends (returns (err (circuit_open (show_open o)))) cb [])
  pub open_next :
      (left n : ℕ) (rest : Retried X)
      → n ≤ c.max_probe_interval
      → P left rest
      → P (suc left) (after (pause heartbeat (waited n)) rest)

module _ {X : Type 0} (policy : RetryPolicy) (heartbeat : Bool) (show_open : CircuitOpen → String)
    (env : ℕ → Attempt X) (c : CircuitBreakerConfig) (longest : ℕ) (P : ℕ → Retried X → Type 0)
    (cases : Cases policy heartbeat show_open env c longest P)
    (capped : policy.max_backoff_secs ≤ longest) where
  -- The attempts that are left keep the property.
  abbrev Continues : ℕ → (CircuitBreaker → ℕ → Retried X) → Type 0
  Continues left next =
      (cb : CircuitBreaker) (delay : ℕ) → Serves c cb → delay ≤ longest → P left (next cb delay)

  next_delay-le : (delay : ℕ) → next_delay policy delay ≤ longest
  unfolding next_delay
  next_delay-le delay = omega arith

  failed-P :
      (left k : ℕ) (next : CircuitBreaker → ℕ → Retried X) (e : ProjectionError X)
      (cb : CircuitBreaker) (delay : ℕ) (class : ErrorClass)
      → classify e ≡ class
      → (env k).outcome ≡ some e
      → Serves c cb
      → delay ≤ longest
      → (Continues left next
          → P (suc left) (failed policy heartbeat show_open next true (env k) e class cb delay))
        × P 0 (failed policy heartbeat show_open next false (env k) e class cb delay)
  unfolding failed
  failed-P left k next e cb delay fatal q o v d =
      (λ _. cases.fatal_end (suc left) k cb e o q v, cases.fatal_end 0 k cb e o q v)
  failed-P left k next e cb delay _ q o v d = (
    λ h. cases.transient_next left k delay _ d (
        h _ _ (record_failure-Serves c cb (env k).failed_at (env k).breaker_random v)
          (next_delay-le delay)),
    cases.transient_end k _ e o
        (record_failure-Serves c cb (env k).failed_at (env k).breaker_random v),
  )

  executed-P :
      (left k : ℕ) (next : CircuitBreaker → ℕ → Retried X) (o : Option (ProjectionError X))
      (cb : CircuitBreaker) (delay : ℕ)
      → (env k).outcome ≡ o
      → Serves c cb
      → delay ≤ longest
      → (Continues left next
          → P (suc left) (executed policy heartbeat show_open next true (env k) o cb delay))
        × P 0 (executed policy heartbeat show_open next false (env k) o cb delay)
  unfolding executed
  executed-P left k next none cb delay o v d = (
    λ _. cases.success (suc left) k _ o (record_success-Serves c cb v),
    cases.success 0 k _ o (record_success-Serves c cb v),
  )
  executed-P left k next (some e) cb delay o v d =
      failed-P left k next e cb delay (classify e) refl o v d

  checked-P :
      (left k : ℕ) (next : CircuitBreaker → ℕ → Retried X) (found : Checked) (cb : CircuitBreaker)
      (delay : ℕ)
      → found ≢ panics
      → ((o : CircuitOpen) → found ≡ rejects o → o.next_probe_in ≤ c.max_probe_interval)
      → Serves c cb
      → delay ≤ longest
      → (Continues left next
          → P (suc left) (checked policy heartbeat show_open next true (env k) found cb delay))
        × P 0 (checked policy heartbeat show_open next false (env k) found cb delay)
  unfolding checked
  checked-P left k next passes cb delay np w v d =
      executed-P left k next (env k).outcome cb delay refl v d
  checked-P left k next panics cb delay np w v d = absurd (np refl)
  checked-P left k next (rejects o) cb delay np w v d = (
    λ h. cases.open_next left o.next_probe_in _ (w o refl) (h _ _ v (next_delay-le delay)),
    cases.open_end cb o v,
  )

  attempt_once-P :
      (left k : ℕ) (next : CircuitBreaker → ℕ → Retried X) (cb : CircuitBreaker) (delay : ℕ)
      → Serves c cb
      → delay ≤ longest
      → (Continues left next
          → P (suc left) (attempt_once policy heartbeat show_open next true (env k) cb delay))
        × P 0 (attempt_once policy heartbeat show_open next false (env k) cb delay)
  unfolding attempt_once
  attempt_once-P left k next cb delay v d =
      checked-P left k next (check cb (env k).checked_at).1 (check cb (env k).checked_at).0 delay
        (check-ne-panics cb (env k).checked_at v.valid)
        (λ o q.
          subst (λ (x : CircuitBreakerConfig). o.next_probe_in ≤ x.max_probe_interval) v.configured
            (check-rejects_wait cb (env k).checked_at v.valid q))
        (check-Serves c cb (env k).checked_at v) d

  attempts-P :
      (left attempt : ℕ) (cb : CircuitBreaker) (delay : ℕ)
      → attempt + left ≡ policy.max_retries
      → Serves c cb
      → delay ≤ longest
      → P left (attempts policy heartbeat show_open env (suc left) attempt cb delay)
  unfolding attempts
  attempts-P zero attempt cb delay e v d =
      let last : ltb attempt policy.max_retries ≡ false = le→not-ltb _ _ (omega arith) in
      rw (last, attempts) (attempt_once-P zero attempt _ cb delay v d).1
  attempts-P (suc left) attempt cb delay e v d =
      let more : ltb attempt policy.max_retries ≡ true = lt→ltb _ _ (omega arith) in
      rw (more, attempts)
        ((attempt_once-P left attempt _ cb delay v d).0
          (λ cb' d' v' le. attempts-P left (attempt + 1) cb' d' (omega arith) v' le))

  -- The rule: with at least one attempt allowed, from a valid breaker.
  pub retry_with_backoff-P :
      (left : ℕ) (cb : CircuitBreaker)
      → policy.max_retries ≡ suc left
      → policy.base_backoff_secs ≤ longest
      → Serves c cb
      → P left (retry_with_backoff policy heartbeat show_open env cb)
  unfolding retry_with_backoff
  retry_with_backoff-P left cb e b v =
      subst
        (λ (n : ℕ).
          P left (attempts policy heartbeat show_open env n 1 cb policy.base_backoff_secs))
        (sym e) (attempts-P left 1 cb policy.base_backoff_secs (omega arith) v b)
