-- ===== src/Projections/CoreEntities.antt =====
-- crates/projections/src/projection/dual/core_entities.rs: atoms and triples written to SurrealDB, to
-- `term` and to the `kg` database, in this order, with no transaction around the three.
pub mod Settled
pub mod SettledKg
pub mod Written
pub mod Unsunk
pub mod Replay
pub mod Stages
pub mod Kept
pub mod Alike
pub mod Fallback
use Prim.Native.String.{String}
use intuition_core.Base.{Bool, Option, none, some, List, [], ◌∷◌, Result, ok, err, Eq, text_eq}
use intuition_core.Errors.{
  ErrorClass, fatal, transient, circuit_protected, ProjectionError, classify,
}
use intuition_core.Events.{Serde}
use intuition_core.Events.Parsing.{ParsedEvent}
use intuition_core.Workers.Sink.{SinkOperation, DeadLetter, record_fatal_event}
use intuition_core.Projections.EntityTables.{Codecs, Term, KgTables}
use intuition_core.Projections.EntityPlan.{
  PgTermRow, WritePlan, Planned, build_write_plan, insert_term_row, apply_kg_row, each_row,
}

-- The sink of crates/projections/src/sink/surreal.rs: what a batch of operations makes of the database, and
-- what a batch that fails leaves there.
pub record ProjectionSink (J : Serde) : Type 1 where
  pub State : Type 0
  pub apply_batch : List (SinkOperation J) → State → State
  pub broken_off : List (SinkOperation J) → State → State

-- `NoopSink` of crates/projections/src/sink/mod.rs, which takes every batch and keeps nothing.
abbrev pub noop_sink : (J : Serde) → ProjectionSink J
noop_sink J = record { State = Unit {0}; apply_batch = λ ops s. s; broken_off = λ ops s. s }

-- A transaction is committed; or fails, at its opening, at a statement or at the commit, and leaves
-- nothing; or it is committed but the answer to the commit is lost.
pub data Transaction (X : Type 0) : Type 0 where
  works : Transaction X
  fails : ProjectionError X → Transaction X
  unanswered : ProjectionError X → Transaction X

-- What the databases do in one call.
pub record Attempt (X : Type 0) : Type 0 where
  pub sink_error : Option (ProjectionError X)
  pub term : Transaction X
  pub kg : Transaction X
  pub letter_fails : Bool

pub record Stores (J : Serde) (S : ProjectionSink J) : Type 0 where
  pub surreal : S.State
  pub term : Term J.Time
  pub kg : Option (KgTables J.Time)
  pub dead_letters : List (DeadLetter J)

abbrev pub Done : (J : Serde) → ProjectionSink J → Type 0 → Type 0
Done J S X = Stores J S × Result (ProjectionError X) (Unit {0})

module _ {J : Serde} {S : ProjectionSink J} {X : Type 0} where
  -- The `?` between two steps.
  abbrev pub and_then : Done J S X → (Stores J S → Done J S X) → Done J S X
  and_then (stores, err e) rest = (stores, err e)
  and_then (stores, ok tt) rest = rest stores

  abbrev pub applied : Option (ProjectionError X) → List (SinkOperation J) → Stores J S → Done J S X
  applied none ops stores = (record stores { surreal = S.apply_batch ops stores.surreal }, ok tt)
  applied (some e) ops stores = (record stores { surreal = S.broken_off ops stores.surreal }, err e)

  -- Step A.
  abbrev pub apply_surreal :
      Option (ProjectionError X) → List (SinkOperation J) → Stores J S → Done J S X
  apply_surreal fault [] stores = (stores, ok tt)
  apply_surreal fault (op ∷ ops) stores = applied fault (op ∷ ops) stores

  abbrev pub committed : Transaction X → Stores J S → Stores J S → Done J S X
  committed works before after = (after, ok tt)
  committed (fails e) before after = (before, err e)
  committed (unanswered e) before after = (after, err e)

  abbrev pub lettered :
      Bool → ErrorClass → Stores J S → ParsedEvent J → ProjectionError X → Stores J S
  unfolding record_fatal_event
  lettered letter_fails fatal stores event e = record stores {
    dead_letters = record_fatal_event letter_fails stores.dead_letters "core_entities" event e;
  }
  lettered letter_fails transient stores event e = stores
  lettered letter_fails circuit_protected stores event e = stores

module _ {J : Serde} {S : ProjectionSink J} {X : Type 0} ⦃t : Eq J.Time⦄ (C : Codecs J) where
  -- Step B.
  unfoldable pub commit_pg_transaction :
      Transaction X → List (PgTermRow J) → Stores J S → Done J S X
  unfolding insert_term_row
  commit_pg_transaction tx [] stores = (stores, ok tt)
  commit_pg_transaction tx (row ∷ rows) stores =
      committed tx stores
        (record stores { term = each_row (insert_term_row C) stores.term (row ∷ rows) })

  unfoldable pub write_kg :
      Transaction X → List (PgTermRow J) → Stores J S → Option (KgTables J.Time) → Done J S X
  unfolding apply_kg_row
  write_kg tx rows stores none = (stores, ok tt)
  write_kg tx [] stores (some kg) = (stores, ok tt)
  write_kg tx (row ∷ rows) stores (some kg) =
      committed tx stores (record stores { kg = some (each_row (apply_kg_row C) kg (row ∷ rows)) })

  -- Step C.
  unfoldable pub write_kg_batch : Transaction X → List (PgTermRow J) → Stores J S → Done J S X
  unfolding write_kg
  write_kg_batch tx rows stores = write_kg tx rows stores stores.kg

  unfoldable pub write_plan : Attempt X → Stores J S → WritePlan J → Done J S X
  unfolding commit_pg_transaction write_kg_batch
  write_plan attempt stores (ops, rows) =
      and_then (apply_surreal attempt.sink_error ops stores) (λ upserted.
        and_then (commit_pg_transaction attempt.term rows upserted)
          (λ termed. write_kg_batch attempt.kg rows termed))

  unfoldable pub carry_out : Attempt X → Stores J S → Planned J X → Done J S X
  unfolding write_plan
  carry_out attempt stores (err (event, e)) =
      (lettered attempt.letter_fails (classify e) stores event e, err e)
  carry_out attempt stores (ok plan) = write_plan attempt stores plan

  unfoldable pub process_parsed_batch : Attempt X → Stores J S → List (ParsedEvent J) → Done J S X
  unfolding build_write_plan carry_out
  process_parsed_batch attempt stores [] = (stores, ok tt)
  process_parsed_batch attempt stores (event ∷ events) =
      carry_out attempt stores (build_write_plan C (event ∷ events))
