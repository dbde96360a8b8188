-- ===== src/Workers/EntityLoop/Recorded.antt =====
-- What the poll loop of crates/projections/src/worker/core_entities.rs keeps: the events up to the
-- checkpoint have their rows in `term`.
use Prim.Native.String.{String}
use intuition_core.Base.{ℕ, ◌≤◌, ◌≡◌, true, List, In, Ascends, top, Eq}
use intuition_core.Events.{Serde, StoredEvent}
use intuition_core.Resilience.Breaker.{CircuitBreakerConfig}
use intuition_core.Resilience.Breaker.Invariant.{Serves}
use intuition_core.Workers.Store.{get_checkpoint, is_wanted}
use intuition_core.Workers.Store.Checkpoints.{IsKeyed}
use intuition_core.Workers.Store.Reading.{seq}
use intuition_core.Workers.Cycle.{parsed}
use intuition_core.Projections.EntityTables.{Codecs}
use intuition_core.Projections.EntityPlan.{per_event}
use intuition_core.Projections.CoreEntities.{ProjectionSink, Stores}
use intuition_core.Projections.CoreEntities.Kept.{InPlace}
use intuition_core.Workers.EntityLoop.{World, event_types}

abbrev pub checkpoint_of : {J : Serde} {S : ProjectionSink J} → World J S → ℕ
checkpoint_of w = get_checkpoint w.checkpoints "core_entities" "dual"

module _ {J : Serde} {S : ProjectionSink J} ⦃t : Eq J.Time⦄ (C : Codecs J) (X : Type 0)
    (c d : CircuitBreakerConfig) where
  -- The event has a plan, and its rows are in `term`.
  abbrev pub HasRows : StoredEvent J → Stores J S → Type 0
  HasRows e s = InPlace (per_event {X = X} C (parsed e)) s.term

  pub record IsRecorded (w : World J S) : Type 0 where
    pub keyed : IsKeyed "core_entities" "dual" w.checkpoints
    pub ascends : Ascends seq 0 w.event_store
    pub reached : checkpoint_of w ≤ top seq 0 w.event_store
    pub recorded :
        (e : StoredEvent J)
        → In e w.event_store
        → is_wanted event_types e ≡ true
        → e.sequence_number ≤ checkpoint_of w
        → HasRows e w.machine.stores
    pub surreal_serves : Serves c w.machine.surreal_cb
    pub pg_serves : Serves d w.machine.pg_cb

  -- What a pass keeps.
  abbrev pub Goes : World J S → World J S → Type 0
  Goes w w' =
      (checkpoint_of w ≤ checkpoint_of w') × IsRecorded w' × (w'.event_store ≡ w.event_store)
