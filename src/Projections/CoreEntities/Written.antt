-- ===== src/Projections/CoreEntities/Written.antt =====
-- What a batch writes through crates/projections/src/projection/dual/core_entities.rs where no database
-- fails.
use intuition_core.Base.{◌≡◌, refl, ap, false, Option, none, some, List, [], ◌∷◌, ok, Eq, text_eq}
use intuition_core.Events.{Serde}
use intuition_core.Workers.Sink.{SinkOperation}
use intuition_core.Projections.EntityTables.{Codecs, KgTables}
use intuition_core.Projections.EntityPlan.{
  PgTermRow, WritePlan, insert_term_row, apply_kg_row, each_row,
}
use intuition_core.Projections.CoreEntities.{
  ProjectionSink, works, Attempt, Stores, Done, apply_surreal, commit_pg_transaction, write_kg,
  write_kg_batch, write_plan,
}

-- No database fails.
abbrev pub calm : {X : Type 0} → Attempt X
calm = record { sink_error = none; term = works; kg = works; letter_fails = false }

-- The state that the sink ends in; without operations it is not called.
abbrev pub upserted :
    {J : Serde} (S : ProjectionSink J) → List (SinkOperation J) → S.State → S.State
upserted S [] s = s
upserted S (op ∷ ops) s = S.apply_batch (op ∷ ops) s

module _ {J : Serde} ⦃t : Eq J.Time⦄ (C : Codecs J) where
  abbrev pub kg_written : List (PgTermRow J) → Option (KgTables J.Time) → Option (KgTables J.Time)
  kg_written rows none = none
  kg_written rows (some kg) = some (each_row (apply_kg_row C) kg rows)

module _ {J : Serde} {S : ProjectionSink J} ⦃t : Eq J.Time⦄ (C : Codecs J) where
  -- All that a plan asks for.
  abbrev pub final : WritePlan J → Stores J S → Stores J S
  final (ops, rows) stores = record stores {
    surreal = upserted S ops stores.surreal;
    term = each_row (insert_term_row C) stores.term rows;
    kg = kg_written C rows stores.kg;
  }

  module _ {X : Type 0} where
    apply_surreal-calm :
        (ops : List (SinkOperation J)) (s : Stores J S)
        → ◌≡◌ {A = Done J S X}
            (apply_surreal none ops s)
            (record s { surreal = upserted S ops s.surreal }, ok tt)
    apply_surreal-calm [] s = refl
    apply_surreal-calm (op ∷ ops) s = refl

    commit_pg_transaction-calm :
        (rows : List (PgTermRow J)) (s : Stores J S)
        → ◌≡◌ {A = Done J S X}
            (commit_pg_transaction C works rows s)
            (record s { term = each_row (insert_term_row C) s.term rows }, ok tt)
    unfolding commit_pg_transaction
    commit_pg_transaction-calm [] s = refl
    commit_pg_transaction-calm (row ∷ rows) s = refl

    write_kg-calm :
        (rows : List (PgTermRow J)) (s : Stores J S) (kg : Option (KgTables J.Time))
        → s.kg ≡ kg
        → ◌≡◌ {A = Done J S X}
            (write_kg C works rows s kg)
            (record s { kg = kg_written C rows kg }, ok tt)
    unfolding write_kg
    write_kg-calm rows s none q =
        ap (λ (k : Option (KgTables J.Time)). (record s { kg = k }, ok tt)) q
    write_kg-calm [] s (some kg) q =
        ap (λ (k : Option (KgTables J.Time)). (record s { kg = k }, ok tt)) q
    write_kg-calm (row ∷ rows) s (some kg) q = refl

    pub write_plan-calm :
        (plan : WritePlan J) (s : Stores J S)
        → write_plan C (calm {X = X}) s plan ≡ (final plan s, ok tt)
    unfolding write_plan write_kg_batch
    write_plan-calm (ops, rows) s =
        rw
          (
            apply_surreal-calm ops s,
            commit_pg_transaction-calm rows (record s { surreal = upserted S ops s.surreal }),
          )
          (write_kg-calm rows
            (record s {
              surreal = upserted S ops s.surreal;
              term = each_row (insert_term_row C) s.term rows;
            })
            s.kg refl)
