-- ===== src/Workers/EntityLoop.antt =====
-- The poll loop of crates/projections/src/worker/core_entities.rs, around its retry loop.
pub mod Recorded
use Prim.Native.String.{String}
use intuition_core.Base.{
  ℕ, Bool, true, false, Option, none, some, List, [], ◌∷◌, ◌++◌, ◌||◌, length, last, ltb,
  if◌then◌else◌, ok, err, Eq,
}
use intuition_core.Errors.{ProjectionError}
use intuition_core.Events.{EventType, atom_created, triple_created, Serde, StoredEvent}
use intuition_core.Resilience.Breaker.{CircuitState, closed, opened, half_open, CircuitOpen}
use intuition_core.Resilience.Retry.{RetryPolicy, Ending, returns, falls_through, panicked}
use intuition_core.Workers.Store.{Checkpoint, read_batch_multi, get_checkpoint, save_checkpoint}
use intuition_core.Workers.Cycle.{
  WorkerConfig, Act, counts_batch, crashes, status, sleeps, retries, beats_if, unreadable, idle,
  parse_batch_once,
}
use intuition_core.Projections.EntityTables.{Codecs}
use intuition_core.Projections.CoreEntities.{ProjectionSink}
use intuition_core.Workers.CoreEntities.{Meeting, Machine, process_with_retry}

pub record CoreEntitiesWorker : Type 0 where
  pub config : WorkerConfig
  pub heartbeat : Bool
  pub retry_policy : RetryPolicy

pub record World (J : Serde) (S : ProjectionSink J) : Type 0 where
  pub event_store : List (StoredEvent J)
  pub checkpoints : List Checkpoint
  pub machine : Machine J S

-- What a pass meets: the events that have arrived, whether the checkpoint or the batch cannot be read or
-- the checkpoint not be saved, and the attempts of the retry loop.
pub record Circumstances (J : Serde) (X : Type 0) : Type 0 where
  pub arrived : List (StoredEvent J)
  pub checkpoint_unreadable : Bool
  pub batch_unreadable : Bool
  pub save_fails : Bool
  pub meetings : ℕ → Meeting X

abbrev pub arrivals : {J : Serde} {X : Type 0} → List (Circumstances J X) → List (StoredEvent J)
arrivals [] = []
arrivals (env ∷ envs) = env.arrived ++ arrivals envs

-- `CoreEntitiesProjection::event_types`.
abbrev pub event_types : List EventType
event_types = atom_created ∷ triple_created ∷ []

abbrev pub is_open : CircuitState → Bool
is_open closed = false
is_open opened = true
is_open half_open = false

module _ {J : Serde} (self : CoreEntitiesWorker) where
  abbrev pub rests : List (StoredEvent J) → List Act
  rests batch =
      counts_batch
      ∷ beats_if self.heartbeat (
          if ltb (length batch) self.config.batch_size
          then sleeps self.config.poll_interval_ms ∷ []
          else [])

module _ {J : Serde} {S : ProjectionSink J} (self : CoreEntitiesWorker) where
  -- The beat is left out while a breaker is open, so that the watchdog sees the stall.
  abbrev pub cools_down : Machine J S → List Act
  cools_down m =
      if is_open m.surreal_cb.state || is_open m.pg_cb.state
      then sleeps 30000 ∷ []
      else beats_if self.heartbeat (sleeps 30000 ∷ [])

  -- The batch is written; its last event is the new checkpoint.
  unfoldable pub saves :
      World J S → Bool → List (StoredEvent J) → Option (StoredEvent J) → World J S × List Act
  saves w save_fails batch none = (w, [])
  saves w true batch (some l) = (w, status 3 ∷ beats_if self.heartbeat (sleeps 30000 ∷ []))
  saves w false batch (some l) = (
    record w {
      checkpoints =
          save_checkpoint w.checkpoints "core_entities" "dual" l.sequence_number l.block_number;
    },
    rests self batch,
  )

  unfoldable pub ended :
      {X : Type 0} → World J S → Bool → List (StoredEvent J) → Ending X → World J S × List Act
  unfolding saves
  ended w save_fails batch (returns (ok _)) = saves w save_fails batch (last batch)
  ended w save_fails batch (returns (err e)) = (w, status 3 ∷ cools_down w.machine)
  ended w save_fails batch falls_through = (w, crashes ∷ [])
  ended w save_fails batch panicked = (w, crashes ∷ [])

module _ {J : Serde} {S : ProjectionSink J} {X : Type 0} ⦃t : Eq J.Time⦄ (C : Codecs J)
    (show_open : CircuitOpen → String) (self : CoreEntitiesWorker) where
  unfoldable pub on_batch :
      World J S → Circumstances J X → List (StoredEvent J) → World J S × List Act
  unfolding ended process_with_retry parse_batch_once
  on_batch w env [] = (w, idle self.heartbeat self.config)
  on_batch w env (event ∷ events) =
      let batch = event ∷ events in
      let r =
        process_with_retry C self.retry_policy self.heartbeat show_open env.meetings w.machine
          batch in
      let (w', acts) =
        ended self (record w { machine = r.machine }) env.save_fails batch r.ending in
      (w', status 1 ∷ (parse_batch_once batch).1 ++ retries r.effects ∷ acts)

  -- One pass through the loop of `run`.
  unfoldable pub cycle : World J S → Circumstances J X → World J S × List Act
  unfolding on_batch read_batch_multi get_checkpoint
  cycle w env =
      if env.checkpoint_unreadable
      then (w, unreadable self.heartbeat self.config)
      else if env.batch_unreadable
      then (w, unreadable self.heartbeat self.config)
      else on_batch w env (
          read_batch_multi w.event_store event_types
            (get_checkpoint w.checkpoints "core_entities" "dual") self.config.batch_size)

  -- Passes until the token is cancelled; before each, the events that have arrived by then.
  unfoldable pub run : World J S → List (Circumstances J X) → World J S × List Act
  unfolding cycle
  run w [] = (w, [])
  run w (env ∷ envs) =
      let (w', acts) = cycle (record w { event_store = w.event_store ++ env.arrived }) env in
      let (w'', more) = run w' envs in (w'', acts ++ more)
