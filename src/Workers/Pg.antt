-- ===== src/Workers/Pg.antt =====
-- crates/projections/src/worker/pg.rs: one pass through the poll loop of a PostgreSQL projection, and
-- passes one after the other.
pub mod Invariant
pub mod Delivery
pub mod Uptime
use Prim.Native.String.{String, ◌++◌ as text_append}
use intuition_core.Base.{
  ℕ, ltb, if◌then◌else◌, Bool, true, false, Option, none, some, List, [], ◌∷◌, ◌++◌, Result, ok,
  err, length,
}
use intuition_core.Errors.{ProjectionError}
use intuition_core.Events.{EventType, Serde, StoredEvent}
use intuition_core.Events.Parsing.{ParsedEvent}
use intuition_core.Resilience.Breaker.{CircuitBreaker, CircuitOpen}
use intuition_core.Resilience.Retry.{
  RetryPolicy, event_driven, Ending, returns, falls_through, panicked, Retried, retry_with_backoff,
}
use intuition_core.Workers.Store.{Checkpoint, read_batch_multi, get_checkpoint, save_checkpoint}
use intuition_core.Workers.Cycle.{
  WorkerConfig, Act, counts_batch, beats, crashes, status, sleeps, retries, Circumstances, beats_if,
  unreadable, idle, parse_batch_once, resolve_checkpoint_target,
}

pub record PgWorker : Type 0 where
  pub projection_name : String
  pub shard_id : Option ℕ
  pub event_types : List EventType
  pub config : WorkerConfig
  pub heartbeat : Bool
  pub retry_policy : RetryPolicy

unfoldable pub new : String → Option ℕ → List EventType → WorkerConfig → PgWorker
unfolding event_driven
new projection_name shard_id event_types config = record {
  projection_name = projection_name;
  shard_id = shard_id;
  event_types = event_types;
  config = config;
  heartbeat = false;
  retry_policy = event_driven;
}

unfoldable pub with_heartbeat : PgWorker → PgWorker
with_heartbeat self = record self { heartbeat = true }

unfoldable pub checkpoint_name : (ℕ → String) → PgWorker → String
checkpoint_name show self = elim self.shard_id [
  | none ↦ self.projection_name
  | some id ↦ text_append self.projection_name (text_append "_s" (show id))
]

-- The tables, the breaker, and the events that the projection has processed: those of the batches for
-- which `process_parsed_batch` returned `Ok(())`.
pub record World (J : Serde) : Type 0 where
  pub event_store : List (StoredEvent J)
  pub checkpoints : List Checkpoint
  pub circuit_breaker : CircuitBreaker
  pub processed : List (ParsedEvent J)

-- The beat and the cooldown after a failure.
abbrev cools_down : PgWorker → List Act
cools_down self = beats_if self.heartbeat (sleeps 30000 ∷ [])

module _ {J : Serde} (show : ℕ → String) (self : PgWorker) where
  -- After a successful write of the checkpoint: a partial batch is followed by a sleep.
  abbrev rests : List (StoredEvent J) → List Act
  rests batch = beats_if self.heartbeat (
      if ltb (length batch) self.config.batch_size
      then sleeps self.config.poll_interval_ms ∷ []
      else [])

  pub write_checkpoint :
      World J → Bool → Result (Unit {0}) (ℕ × ℕ) → World J × Result (Unit {0}) ℕ × List Act
  write_checkpoint w save_fails (err _) = (w, err tt, [])
  write_checkpoint w true (ok target) = (w, err tt, [])
  write_checkpoint w false (ok (new_sequence, new_block)) = (
    record w {
      checkpoints =
          save_checkpoint w.checkpoints (checkpoint_name show self) "pg" new_sequence new_block;
    },
    ok new_sequence,
    counts_batch ∷ [],
  )

  unfoldable pub save_checkpoint_and_record_metrics :
      World J → List (StoredEvent J) → Bool → World J × Result (Unit {0}) ℕ × List Act
  unfolding write_checkpoint resolve_checkpoint_target
  save_checkpoint_and_record_metrics w batch save_fails =
      write_checkpoint w save_fails (resolve_checkpoint_target batch)

  pub saved : List (StoredEvent J) → World J × Result (Unit {0}) ℕ × List Act → World J × List Act
  saved batch (w, ok new_sequence, acts) = (w, acts ++ rests batch)
  saved batch (w, err _, acts) = (w, acts ++ cools_down self)

module _ {J : Serde} {X : Type 0} (show_open : CircuitOpen → String) (show : ℕ → String)
    (self : PgWorker) where
  -- The batch has gone through the retry loop.
  pub applied : World J → Circumstances J X → List (StoredEvent J) → Ending X → World J × List Act
  unfolding saved save_checkpoint_and_record_metrics parse_batch_once
  applied w env batch (returns (ok _)) = saved show self batch (
      save_checkpoint_and_record_metrics show self
        (record w { processed = w.processed ++ (parse_batch_once batch).0 }) batch env.save_fails)
  applied w env batch (returns (err e)) = (w, status 3 ∷ cools_down self)
  applied w env batch falls_through = (w, crashes ∷ [])
  applied w env batch panicked = (w, crashes ∷ [])

  pub on_batch : World J → Circumstances J X → List (StoredEvent J) → World J × List Act
  unfolding applied
  on_batch w env [] = (w, idle self.heartbeat self.config)
  on_batch w env (event ∷ events) =
      let batch = event ∷ events in
      let parse_acts = (parse_batch_once batch).1 in
      let r =
        retry_with_backoff self.retry_policy self.heartbeat show_open env.attempts
          w.circuit_breaker in
      let (w', acts) =
        applied (record w { circuit_breaker = r.circuit_breaker }) env batch r.ending in
      (w', status 1 ∷ parse_acts ++ retries r.effects ∷ acts)

  -- One pass through the loop of `run`.
  unfoldable pub cycle : World J → Circumstances J X → World J × List Act
  unfolding on_batch
  cycle w env =
      if env.checkpoint_unreadable
      then (w, unreadable self.heartbeat self.config)
      else if env.batch_unreadable
      then (w, unreadable self.heartbeat self.config)
      else on_batch w env (
          read_batch_multi w.event_store self.event_types
            (get_checkpoint w.checkpoints (checkpoint_name show self) "pg") self.config.batch_size)

  -- Passes until the token is cancelled; before each, the events that have arrived by then.
  unfoldable pub run : World J → List (Circumstances J X) → World J × List Act
  unfolding cycle
  run w [] = (w, [])
  run w (env ∷ envs) =
      let (w', acts) = cycle (record w { event_store = w.event_store ++ env.arrived }) env in
      let (w'', more) = run w' envs in (w'', acts ++ more)
