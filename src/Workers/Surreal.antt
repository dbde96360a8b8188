-- ===== src/Workers/Surreal.antt =====
-- crates/projections/src/worker/surreal.rs: one pass through the poll loop of a projection into a sink,
-- and passes one after the other.
pub mod Accounting
pub mod Dropped
pub mod Invariant
pub mod Delivery
use Prim.Native.String.{String}
use intuition_core.Base.{
  ℕ, ltb, if◌then◌else◌, Bool, true, false, ◌||◌, Option, none, some, List, [], ◌∷◌, ◌++◌, Result,
  ok, err, length, last,
}
use intuition_core.Errors.{
  ErrorClass, fatal, transient, circuit_protected, ProjectionError, classify,
}
use intuition_core.Events.{EventType, Serde, StoredEvent}
use intuition_core.Events.Parsing.{ParsedEvent, sequence_number}
use intuition_core.Resilience.Breaker.{
  CircuitBreaker, CircuitOpen, CircuitState, closed, opened, half_open,
}
use intuition_core.Resilience.Retry.{
  RetryPolicy, event_driven, Ending, returns, falls_through, panicked, Retried, Effect,
  retry_with_backoff,
}
use intuition_core.Workers.Store.{Checkpoint, read_batch_multi, get_checkpoint, save_checkpoint}
use intuition_core.Workers.Sink.{SinkOperation, DeadLetter, record_fatal_event}
use intuition_core.Workers.Cycle.{
  WorkerConfig, Act, counts_error, counts_batch, beats, crashes, status, sleeps, retries,
  Circumstances, beats_if, unreadable, idle, parse_batch_once,
}

-- The projection, and the names and settings of the worker.
pub record Worker (J : Serde) (X : Type 0) : Type 0 where
  pub name : String
  pub event_types : List EventType
  pub project_parsed : ParsedEvent J → Result (ProjectionError X) (List (SinkOperation J))
  pub sink_name : String
  pub config : WorkerConfig
  pub heartbeat : Bool
  pub retry_policy : RetryPolicy
  pub dead_letter_pool : Bool

-- The tables, the breaker, and the operations that the sink has applied.
pub record World (J : Serde) : Type 0 where
  pub event_store : List (StoredEvent J)
  pub checkpoints : List Checkpoint
  pub circuit_breaker : CircuitBreaker
  pub applied : List (SinkOperation J)
  pub dead_letters : List (DeadLetter J)

-- What the loop over the parsed events has gathered.
pub record Projected (J : Serde) : Type 0 where
  pub all_ops : List (SinkOperation J)
  pub had_error : Bool
  pub letters : List (DeadLetter J)
  pub acts : List Act

abbrev is_open : CircuitState → Bool
is_open opened = true
is_open closed = false
is_open half_open = false

module _ {J : Serde} {X : Type 0} (insert_fails : ℕ → Bool) (self : Worker J X) where
  -- A projection error: only a fatal one is written to the table.
  pub dead_letter :
      List (DeadLetter J)
      → ParsedEvent J
      → ProjectionError X
      → ErrorClass
      → Bool
      → List (DeadLetter J)
  unfolding record_fatal_event
  dead_letter letters event e fatal true =
      record_fatal_event (insert_fails (sequence_number event)) letters self.name event e
  dead_letter letters event e fatal false = letters
  dead_letter letters event e transient pool = letters
  dead_letter letters event e circuit_protected pool = letters

  pub project_next :
      Projected J
      → ParsedEvent J
      → Result (ProjectionError X) (List (SinkOperation J))
      → Projected J
  unfolding dead_letter
  project_next p event (ok ops) = record p { all_ops = p.all_ops ++ ops }
  project_next p event (err e) = record p {
    had_error = true;
    letters = dead_letter p.letters event e (classify e) self.dead_letter_pool;
    acts = p.acts ++ counts_error ∷ [];
  }

  pub project_all : Projected J → List (ParsedEvent J) → Projected J
  unfolding project_next
  project_all p [] = p
  project_all p (event ∷ events) =
      project_all (project_next p event (self.project_parsed event)) events

  unfoldable pub project_batch : List (DeadLetter J) → List (StoredEvent J) → Projected J
  unfolding project_all parse_batch_once
  project_batch letters batch =
      let (events, parse_acts) = parse_batch_once batch in
      project_all (record { all_ops = []; had_error = false; letters = letters; acts = parse_acts })
        events

module _ {J : Serde} {X : Type 0} (show_open : CircuitOpen → String) (insert_fails : ℕ → Bool)
    (self : Worker J X) where
  -- `-1` for an empty batch, which only the log line reads, is left out.
  pub write_checkpoint : World J → Bool → Option (StoredEvent J) → World J × List Act
  write_checkpoint w save_fails none = (w, [])
  write_checkpoint w true (some l) = (w, counts_batch ∷ [])
  write_checkpoint w false (some l) = (
    record w {
      checkpoints =
          save_checkpoint w.checkpoints self.name self.sink_name l.sequence_number l.block_number;
    },
    counts_batch ∷ [],
  )

  unfoldable pub save_checkpoint_and_record_metrics :
      World J → List (StoredEvent J) → Bool → World J × List Act
  unfolding write_checkpoint
  save_checkpoint_and_record_metrics w batch save_fails = write_checkpoint w save_fails (last batch)

  -- The sink has been written to, or there was nothing to write.
  pub succeeds : World J → Circumstances J X → List (StoredEvent J) → World J × List Act
  unfolding save_checkpoint_and_record_metrics
  succeeds w env batch =
      let (w', acts) = save_checkpoint_and_record_metrics w batch env.save_fails in
      (
        w',
        acts
            ++ beats_if self.heartbeat (
                if ltb (length batch) self.config.batch_size
                then sleeps self.config.poll_interval_ms ∷ []
                else []),
      )

  pub apply_result :
      World J
      → Circumstances J X
      → List (StoredEvent J)
      → List (SinkOperation J)
      → Ending X
      → World J × List Act
  unfolding succeeds
  apply_result w env batch ops (returns (ok _)) =
      succeeds (record w { applied = w.applied ++ ops }) env batch
  apply_result w env batch ops (returns (err e)) = (
    w,
    status 3
        ∷ (if is_open w.circuit_breaker.inner.state
            then sleeps 30000 ∷ []
            else beats_if self.heartbeat (sleeps 30000 ∷ [])),
  )
  apply_result w env batch ops falls_through = (w, crashes ∷ [])
  apply_result w env batch ops panicked = (w, crashes ∷ [])

  pub apply_ops :
      World J
      → Circumstances J X
      → List (StoredEvent J)
      → List (SinkOperation J)
      → World J × List Act
  unfolding apply_result
  apply_ops w env batch [] = succeeds w env batch
  apply_ops w env batch (op ∷ ops) =
      let r =
        retry_with_backoff self.retry_policy self.heartbeat show_open env.attempts
          w.circuit_breaker in
      let (w', acts) =
        apply_result (record w { circuit_breaker = r.circuit_breaker }) env batch (op ∷ ops)
          r.ending in
      (w', retries r.effects ∷ acts)

  pub on_batch : World J → Circumstances J X → List (StoredEvent J) → World J × List Act
  unfolding apply_ops project_batch
  on_batch w env [] = (w, idle self.heartbeat self.config)
  on_batch w env (event ∷ events) =
      let p = project_batch insert_fails self w.dead_letters (event ∷ events) in
      let (w', acts) =
        apply_ops (record w { dead_letters = p.letters }) env (event ∷ events) p.all_ops in
      (w', status 1 ∷ p.acts ++ acts)

  -- One pass through the loop of `run`.
  unfoldable pub cycle : World J → Circumstances J X → World J × List Act
  unfolding on_batch
  cycle w env =
      if env.checkpoint_unreadable
      then (w, unreadable self.heartbeat self.config)
      else if env.batch_unreadable
      then (w, unreadable self.heartbeat self.config)
      else on_batch w env (
          read_batch_multi w.event_store self.event_types
            (get_checkpoint w.checkpoints self.name self.sink_name) self.config.batch_size)

  -- Passes until the token is cancelled; before each, the events that have arrived by then.
  unfoldable pub run : World J → List (Circumstances J X) → World J × List Act
  unfolding cycle
  run w [] = (w, [])
  run w (env ∷ envs) =
      let (w', acts) = cycle (record w { event_store = w.event_store ++ env.arrived }) env in
      let (w'', more) = run w' envs in (w'', acts ++ more)
