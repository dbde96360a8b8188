-- ===== src/Workers/Pg/Uptime.antt =====
-- The worker of crates/projections/src/worker/pg.rs does not crash.
use Prim.Native.String.{String}
use intuition_core.Base.{
  ℕ, ◌<◌, ◌≢◌, Bool, true, false, Option, none, some, List, [], ◌∷◌, ◌++◌, Result, ok, err, All,
  All-append, Bool-cases, inl, inr, if◌then◌else◌, ltb, length,
}
use intuition_core.Events.{Serde, StoredEvent}
use intuition_core.Events.Parsing.{ParseError, parse_or_unknown}
use intuition_core.Resilience.Breaker.{CircuitBreakerConfig, CircuitOpen}
use intuition_core.Resilience.Breaker.Invariant.{Serves}
use intuition_core.Resilience.Retry.{Ending, returns, falls_through, panicked}
use intuition_core.Resilience.Retry.Totality.{IsGrounded, retry_with_backoff-Settled}
use intuition_core.Workers.Cycle.{
  Act, crashes, sleeps, Circumstances, beats_if, parse_batch_once, counts,
}
use intuition_core.Workers.Pg.{
  PgWorker, World, save_checkpoint_and_record_metrics, write_checkpoint, saved, applied, on_batch,
  cycle, run,
}

abbrev IsCalm : Act → Type 0
IsCalm a = a ≢ crashes

-- None of the acts is a crash.
abbrev pub AreCalm : List Act → Type 0
AreCalm acts = All IsCalm acts

beats_if-AreCalm :
    (heartbeat : Bool) (rest : List Act) → AreCalm rest → AreCalm (beats_if heartbeat rest)
beats_if-AreCalm true rest r = (λ q. cc, r)
beats_if-AreCalm false rest r = r

counts-AreCalm : {J : Serde} (e : Option (ParseError J)) → AreCalm (counts e)
counts-AreCalm none = tt
counts-AreCalm (some e) = (λ q. cc, tt)

parse_batch_once-AreCalm :
    {J : Serde} (batch : List (StoredEvent J)) → AreCalm (parse_batch_once batch).1
unfolding parse_batch_once
parse_batch_once-AreCalm [] = tt
parse_batch_once-AreCalm (event ∷ batch) =
    All-append IsCalm (counts (parse_or_unknown event).1) (parse_batch_once batch).1
      (counts-AreCalm (parse_or_unknown event).1) (parse_batch_once-AreCalm batch)

-- The beat, where there is one, and a sleep.
rests-AreCalm : (heartbeat : Bool) (n : ℕ) → AreCalm (beats_if heartbeat (sleeps n ∷ []))
rests-AreCalm heartbeat n = beats_if-AreCalm heartbeat (sleeps n ∷ []) (λ q. cc, tt)

-- A pass that does not crash and leaves the breaker valid.
abbrev GoesOn : {J : Serde} → CircuitBreakerConfig → World J × List Act → Type 0
GoesOn c (w, acts) = Serves c w.circuit_breaker × AreCalm acts

sleep_if-AreCalm : (partial : Bool) (n : ℕ) → AreCalm (if partial then sleeps n ∷ [] else [])
sleep_if-AreCalm true n = (λ q. cc, tt)
sleep_if-AreCalm false n = tt

module _ {J : Serde} (show : ℕ → String) (self : PgWorker) (c : CircuitBreakerConfig) where
  saved-GoesOn :
      (w : World J) (save_fails : Bool) (batch : List (StoredEvent J))
      (target : Result (Unit {0}) (ℕ × ℕ))
      → Serves c w.circuit_breaker
      → GoesOn c (saved show self batch (write_checkpoint show self w save_fails target))
  unfolding saved write_checkpoint
  saved-GoesOn w save_fails batch (err _) v = (v, rests-AreCalm self.heartbeat 30000)
  saved-GoesOn w true batch (ok target) v = (v, rests-AreCalm self.heartbeat 30000)
  saved-GoesOn w false batch (ok target) v = (
    v,
    (
      λ q. cc,
      beats_if-AreCalm self.heartbeat _ (
          sleep_if-AreCalm (ltb (length batch) self.config.batch_size)
            self.config.poll_interval_ms),
    ),
  )

module _ {J : Serde} {X : Type 0} (show_open : CircuitOpen → String) (show : ℕ → String)
    (self : PgWorker) (c : CircuitBreakerConfig)
    (positive : 0 < self.retry_policy.max_retries) where
  applied-GoesOn :
      (w : World J) (env : Circumstances J X) (batch : List (StoredEvent J)) (ending : Ending X)
      → Serves c w.circuit_breaker
      → IsGrounded self.retry_policy self.heartbeat show_open env.attempts ending
      → GoesOn c (applied show_open show self w env batch ending)
  unfolding applied save_checkpoint_and_record_metrics
  applied-GoesOn w env batch (returns (ok _)) v g =
      saved-GoesOn show self c _ env.save_fails batch _ v
  applied-GoesOn w env batch (returns (err e)) v g =
      (v, (λ q. cc, rests-AreCalm self.heartbeat 30000))
  applied-GoesOn w env batch falls_through v g = absurd g
  applied-GoesOn w env batch panicked v g = absurd g

  on_batch-GoesOn :
      (w : World J) (env : Circumstances J X) (batch : List (StoredEvent J))
      → Serves c w.circuit_breaker
      → GoesOn c (on_batch show_open show self w env batch)
  unfolding on_batch
  on_batch-GoesOn w env [] v =
      (v, (λ q. cc, rests-AreCalm self.heartbeat self.config.poll_interval_ms))
  on_batch-GoesOn w env (event ∷ events) v =
      let (grounded, few, serves) =
        retry_with_backoff-Settled self.retry_policy self.heartbeat show_open env.attempts c
          w.circuit_breaker positive v in
      let (v', calm) = applied-GoesOn _ env (event ∷ events) _ serves grounded in
      (
        v',
        (
          λ q. cc,
          All-append IsCalm _ _ (parse_batch_once-AreCalm (event ∷ events)) (λ q. cc, calm),
        ),
      )

  cycle-GoesOn :
      (w : World J) (env : Circumstances J X)
      → Serves c w.circuit_breaker
      → GoesOn c (cycle show_open show self w env)
  unfolding cycle
  cycle-GoesOn w env v = elim (Bool-cases env.checkpoint_unreadable) [
    | inl y ↦
        rw y (v, (λ q. cc, (λ q. cc, rests-AreCalm self.heartbeat self.config.poll_interval_ms)))
    | inr o ↦ elim (Bool-cases env.batch_unreadable) [
      | inl y ↦
          rw (o, y)
            (v, (λ q. cc, (λ q. cc, rests-AreCalm self.heartbeat self.config.poll_interval_ms)))
      | inr p ↦ rw (o, p) (on_batch-GoesOn w env _ v)
    ]
  ]

  -- Over any number of passes, with any failures of the database: where the policy allows an attempt and
  -- the breaker is valid at the start, the worker never crashes, neither at the closing
  -- `unreachable!` of the retry loop nor at the breaker's `expect`, and the breaker stays valid.
  pub run-AreCalm :
      (w : World J) (envs : List (Circumstances J X))
      → Serves c w.circuit_breaker
      → Serves c (run show_open show self w envs).0.circuit_breaker
        × AreCalm (run show_open show self w envs).1
  unfolding run
  run-AreCalm w [] v = (v, tt)
  run-AreCalm w (env ∷ envs) v =
      let w₀ : World J = record w { event_store = w.event_store ++ env.arrived } in
      let (v', calm) = cycle-GoesOn w₀ env v in
      let (v'', more) = run-AreCalm (cycle show_open show self w₀ env).0 envs v' in
      (v'', All-append IsCalm _ _ calm more)
