-- ===== src/Workers/CoreEntities.antt =====
-- crates/projections/src/worker/core_entities.rs: the retry loop of the worker that writes atoms and
-- triples, with one circuit breaker for SurrealDB and one for PostgreSQL. What an attempt meets is given
-- for each; the poll loop is that of the other workers and is not modelled again.
pub mod Settling
use Prim.Native.String.{String}
use intuition_core.Base.{
  ℕ, zero, suc, ◌+◌, max, Bool, true, false, Option, none, some, List, [], ◌∷◌, ◌++◌, ltb, Result,
  ok, err, Eq,
}
use intuition_core.Errors.{
  ErrorClass, fatal, transient, circuit_protected, ProjectionError, classify, database, surreal,
  serialization, invalid_event_data, missing_field, config, sink, unique_constraint_violation,
  circuit_open,
}
use intuition_core.Events.{Serde, StoredEvent}
use intuition_core.Events.Parsing.{ParsedEvent}
use intuition_core.Resilience.Breaker.{
  CircuitBreaker, CircuitOpen, Checked, passes, panics, rejects, check, record_success,
  record_failure,
}
use intuition_core.Resilience.Retry.{
  RetryPolicy, Effect, called, slept, waited, pause, Ending, returns, panicked, next_delay,
  compute_jitter_ms,
}
use intuition_core.Workers.Cycle.{parse_batch_once}
use intuition_core.Projections.EntityTables.{Codecs}
use intuition_core.Projections.CoreEntities.{ProjectionSink, Attempt, Stores, process_parsed_batch}

-- What an attempt meets: the clock at the two checks, the refusal of a connection permit, what the
-- databases do, and the clock and the random numbers behind a failure.
pub record Meeting (X : Type 0) : Type 0 where
  pub surreal_checked_at : ℕ
  pub pg_checked_at : ℕ
  pub permit_error : Option String
  pub databases : Attempt X
  pub surreal_failed_at : ℕ
  pub pg_failed_at : ℕ
  pub surreal_random : ℕ
  pub pg_random : ℕ
  pub jitter_random : ℕ

pub record Machine (J : Serde) (S : ProjectionSink J) : Type 0 where
  pub stores : Stores J S
  pub surreal_cb : CircuitBreaker
  pub pg_cb : CircuitBreaker

pub record Run (J : Serde) (S : ProjectionSink J) (X : Type 0) : Type 0 where
  pub ending : Ending X
  pub machine : Machine J S
  pub effects : List Effect

-- The answers of the two breakers: with an open one, the error that is told and the wait.
pub data Circuits : Type 0 where
  both_pass one_panics : Circuits
  opens : CircuitOpen → ℕ → Circuits

unfoldable pub circuits : Checked → Checked → Circuits
circuits passes passes = both_pass
circuits passes (rejects o) = opens o o.next_probe_in
circuits (rejects o) passes = opens o o.next_probe_in
circuits (rejects o) (rejects q) = opens o (max o.next_probe_in q.next_probe_in)
circuits panics answer = one_panics
circuits passes panics = one_panics
circuits (rejects o) panics = one_panics

module _ {J : Serde} {S : ProjectionSink J} where
  unfoldable pub record_dual_success : Machine J S → Machine J S
  unfolding record_success
  record_dual_success m = record m {
    surreal_cb = record_success m.surreal_cb;
    pg_cb = record_success m.pg_cb;
  }

module _ {J : Serde} {S : ProjectionSink J} {X : Type 0} where
  abbrev pub surreal_fails : Meeting X → Machine J S → Machine J S
  surreal_fails a m = record m {
    surreal_cb = record_failure m.surreal_cb a.surreal_failed_at a.surreal_random;
  }

  abbrev pub pg_fails : Meeting X → Machine J S → Machine J S
  pg_fails a m = record m { pg_cb = record_failure m.pg_cb a.pg_failed_at a.pg_random }

  abbrev pub penalise_both_circuits : Meeting X → Machine J S → Machine J S
  penalise_both_circuits a m = pg_fails a (surreal_fails a m)

  unfoldable pub record_dual_failure : Meeting X → ProjectionError X → Machine J S → Machine J S
  unfolding record_failure
  record_dual_failure a (surreal x) m = surreal_fails a m
  record_dual_failure a (sink text) m = surreal_fails a m
  record_dual_failure a (database x) m = pg_fails a m
  record_dual_failure a (circuit_open text) m = penalise_both_circuits a m
  record_dual_failure a (invalid_event_data text) m = penalise_both_circuits a m
  record_dual_failure a (missing_field text) m = penalise_both_circuits a m
  record_dual_failure a (serialization x) m = penalise_both_circuits a m
  record_dual_failure a (config text) m = penalise_both_circuits a m
  record_dual_failure a (unique_constraint_violation text) m = penalise_both_circuits a m

  abbrev pub ends : Ending X → Machine J S → List Effect → Run J S X
  ends ending m effects = record { ending = ending; machine = m; effects = effects }

  abbrev pub after : List Effect → Run J S X → Run J S X
  after effects rest = record rest { effects = effects ++ rest.effects }

module _ {J : Serde} {S : ProjectionSink J} {X : Type 0} ⦃t : Eq J.Time⦄ (C : Codecs J)
    (policy : RetryPolicy) (heartbeat : Bool) (show_open : CircuitOpen → String)
    (events : List (ParsedEvent J)) where
  unfoldable pub retries :
      (Machine J S → ℕ → Run J S X)
      → Bool
      → Meeting X
      → ProjectionError X
      → Machine J S
      → ℕ
      → Run J S X
  unfolding record_dual_failure
  retries next true a e m delay_secs =
      after (called ∷ pause heartbeat (slept (compute_jitter_ms delay_secs a.jitter_random)))
        (next (record_dual_failure a e m) (next_delay policy delay_secs))
  retries next false a e m delay_secs =
      ends (returns (err e)) (record_dual_failure a e m) (called ∷ [])

  abbrev pub routes :
      (Machine J S → ℕ → Run J S X)
      → Bool
      → Meeting X
      → ProjectionError X
      → ErrorClass
      → Machine J S
      → ℕ
      → Run J S X
  unfolding retries
  routes next more a e transient m delay_secs = retries next more a e m delay_secs
  routes next more a e circuit_protected m delay_secs = retries next more a e m delay_secs
  routes next more a e fatal m delay_secs = ends (returns (err e)) m (called ∷ [])

  unfoldable pub classify_and_route :
      (Machine J S → ℕ → Run J S X)
      → Bool
      → Meeting X
      → Result (ProjectionError X) (Unit {0})
      → Machine J S
      → ℕ
      → Run J S X
  unfolding routes record_dual_success classify
  classify_and_route next more a (ok tt) m delay_secs =
      ends (returns (ok tt)) (record_dual_success m) (called ∷ [])
  classify_and_route next more a (err e) m delay_secs =
      routes next more a e (classify e) m delay_secs

  -- Behind the breakers: the permit, and the batch.
  unfoldable pub permitted :
      (Machine J S → ℕ → Run J S X) → Bool → Meeting X → Option String → Machine J S → ℕ → Run J S X
  unfolding classify_and_route process_parsed_batch
  permitted next true a (some text) m delay_secs =
      after (pause heartbeat (slept (compute_jitter_ms delay_secs a.jitter_random)))
        (next m (next_delay policy delay_secs))
  permitted next false a (some text) m delay_secs = ends (returns (err (sink text))) m []
  permitted next more a none m delay_secs =
      let (stores, result) = process_parsed_batch C a.databases m.stores events in
      classify_and_route next more a result (record m { stores = stores }) delay_secs

  unfoldable pub check_circuit_breakers :
      (Machine J S → ℕ → Run J S X) → Bool → Meeting X → Circuits → Machine J S → ℕ → Run J S X
  unfolding permitted
  check_circuit_breakers next more a both_pass m delay_secs =
      permitted next more a a.permit_error m delay_secs
  check_circuit_breakers next more a one_panics m delay_secs = ends panicked m []
  check_circuit_breakers next true a (opens o wait) m delay_secs =
      after (pause heartbeat (waited wait)) (next m (next_delay policy delay_secs))
  check_circuit_breakers next false a (opens o wait) m delay_secs =
      ends (returns (err (circuit_open (show_open o)))) m []

  unfoldable pub attempt_once :
      (Machine J S → ℕ → Run J S X) → Bool → Meeting X → Machine J S → ℕ → Run J S X
  unfolding check_circuit_breakers circuits check
  attempt_once next more a m delay_secs =
      let (surreal_cb, answer) = check m.surreal_cb a.surreal_checked_at in
      let (pg_cb, other) = check m.pg_cb a.pg_checked_at in
      check_circuit_breakers next more a (circuits answer other)
        (record m { surreal_cb = surreal_cb; pg_cb = pg_cb }) delay_secs

  -- `for attempt in attempt..=max_retries`, with the attempts that are left; behind the loop is the error
  -- of a policy without attempts.
  unfoldable pub attempts : (ℕ → Meeting X) → ℕ → ℕ → Machine J S → ℕ → Run J S X
  unfolding attempt_once
  attempts env zero attempt m delay_secs =
      ends (returns (err (sink "core_entities: max_retries is zero; cannot attempt batch"))) m []
  attempts env (suc left) attempt m delay_secs =
      attempt_once (attempts env left (attempt + 1)) (ltb attempt policy.max_retries) (env attempt)
        m delay_secs

module _ {J : Serde} {S : ProjectionSink J} {X : Type 0} ⦃t : Eq J.Time⦄ (C : Codecs J)
    (policy : RetryPolicy) (heartbeat : Bool) (show_open : CircuitOpen → String) where
  unfoldable pub process_with_retry :
      (ℕ → Meeting X) → Machine J S → List (StoredEvent J) → Run J S X
  unfolding attempts parse_batch_once
  process_with_retry env m events =
      attempts C policy heartbeat show_open (parse_batch_once events).0 env policy.max_retries 1 m
        policy.base_backoff_secs
