-- ===== src/Projections/CoreEntities/Stages.antt =====
-- Where a batch may stop, in crates/projections/src/projection/dual/core_entities.rs.
use intuition_core.Base.{
  ◌≡◌, refl, sym, ap, subst, ◌∙◌, Option, none, some, List, [], ◌∷◌, Result, ok, err, Eq, text_eq,
}
use intuition_core.Errors.{ProjectionError}
use intuition_core.Events.{Serde}
use intuition_core.Events.Parsing.{ParsedEvent}
use intuition_core.Workers.Sink.{SinkOperation}
use intuition_core.Projections.EntityTables.{Codecs, KgTables}
use intuition_core.Projections.EntityPlan.{
  PgTermRow, Planned, WritePlan, build_write_plan, insert_term_row, each_row,
}
use intuition_core.Projections.CoreEntities.{
  ProjectionSink, Transaction, works, fails, unanswered, Attempt, Stores, Done, and_then,
  apply_surreal, commit_pg_transaction, write_kg, write_kg_batch, write_plan, carry_out,
  process_parsed_batch,
}
use intuition_core.Projections.CoreEntities.Written.{
  calm, upserted, kg_written, final, write_plan-calm,
}

module _ {J : Serde} {S : ProjectionSink J} ⦃t : Eq J.Time⦄ (C : Codecs J) where
  -- The operations are in the sink.
  abbrev pub sunk : WritePlan J → Stores J S → Stores J S
  sunk (ops, rows) s = record s { surreal = upserted S ops s.surreal }

  -- And the rows in `term`.
  abbrev pub termed : WritePlan J → Stores J S → Stores J S
  termed (ops, rows) s = record s {
    surreal = upserted S ops s.surreal;
    term = each_row (insert_term_row C) s.term rows;
  }

  -- SurrealDB is never behind `term`, nor `term` behind `kg`.
  pub data Stages {X : Type 0} (plan : WritePlan J) (s : Stores J S) : Done J S X → Type 0 where
    sink_broken :
        (e : ProjectionError X)
        → Stages plan s (record s { surreal = S.broken_off plan.0 s.surreal }, err e)
    only_sink : (e : ProjectionError X) → Stages plan s (sunk plan s, err e)
    not_kg : (e : ProjectionError X) → Stages plan s (termed plan s, err e)
    unreported : (e : ProjectionError X) → Stages plan s (final C plan s, err e)
    complete : Stages plan s (final C plan s, ok tt)

  module _ {X : Type 0} where
    moved :
        (plan : WritePlan J) (s : Stores J S) (kg : Option (KgTables J.Time))
        (r : Result (ProjectionError X) (Unit {0}))
        → (final C plan s).kg ≡ kg
        → Stages plan s (final C plan s, r)
        → Stages plan s (record (termed plan s) { kg = kg }, r)
    moved (ops, rows) s kg r q h =
        subst
          (λ (k : Option (KgTables J.Time)).
            Stages (ops, rows) s (record (termed (ops, rows) s) { kg = k }, r))
          q h

    write_kg-Stages :
        (tx : Transaction X) (ops : List (SinkOperation J)) (rows : List (PgTermRow J))
        (s : Stores J S) (kg : Option (KgTables J.Time))
        → s.kg ≡ kg
        → Stages (ops, rows) s (write_kg C tx rows (termed (ops, rows) s) kg)
    unfolding write_kg
    write_kg-Stages tx ops rows s none q =
        moved (ops, rows) s s.kg (ok tt) (ap (λ k. kg_written C rows k) q ∙ sym q) complete
    write_kg-Stages tx ops [] s (some kg) q =
        moved (ops, []) s s.kg (ok tt) (ap (λ k. kg_written C [] k) q ∙ sym q) complete
    write_kg-Stages works ops (row ∷ rows) s (some kg) q =
        moved (ops, row ∷ rows) s _ (ok tt) (ap (λ k. kg_written C (row ∷ rows) k) q) complete
    write_kg-Stages (fails e) ops (row ∷ rows) s (some kg) q = not_kg e
    write_kg-Stages (unanswered e) ops (row ∷ rows) s (some kg) q =
        moved (ops, row ∷ rows) s _ (err e) (ap (λ k. kg_written C (row ∷ rows) k) q) (unreported e)

    commit_pg_transaction-Stages :
        (tx kg_tx : Transaction X) (ops : List (SinkOperation J)) (rows : List (PgTermRow J))
        (s : Stores J S)
        → Stages
            (ops, rows)
            s
            (and_then
              (commit_pg_transaction C tx rows (sunk (ops, rows) s))
              (write_kg_batch C kg_tx rows))
    unfolding commit_pg_transaction write_kg_batch
    commit_pg_transaction-Stages tx kg_tx ops [] s = write_kg-Stages kg_tx ops [] s s.kg refl
    commit_pg_transaction-Stages works kg_tx ops (row ∷ rows) s =
        write_kg-Stages kg_tx ops (row ∷ rows) s s.kg refl
    commit_pg_transaction-Stages (fails e) kg_tx ops (row ∷ rows) s = only_sink e
    commit_pg_transaction-Stages (unanswered e) kg_tx ops (row ∷ rows) s = not_kg e

    apply_surreal-Stages :
        (fault : Option (ProjectionError X)) (tx kg_tx : Transaction X)
        (ops : List (SinkOperation J)) (rows : List (PgTermRow J)) (s : Stores J S)
        → Stages
            (ops, rows)
            s
            (and_then
              (apply_surreal fault ops s)
              (λ u. and_then (commit_pg_transaction C tx rows u) (write_kg_batch C kg_tx rows)))
    apply_surreal-Stages fault tx kg_tx [] rows s = commit_pg_transaction-Stages tx kg_tx [] rows s
    apply_surreal-Stages none tx kg_tx (op ∷ ops) rows s =
        commit_pg_transaction-Stages tx kg_tx (op ∷ ops) rows s
    apply_surreal-Stages (some e) tx kg_tx (op ∷ ops) rows s = sink_broken e

    -- Of a batch with a plan: SurrealDB has only a part of its operations, or all of them, and then `term`
    -- none of the plan's rows or all, and then `kg` none of them or all; and where not all is written, and
    -- where the answer to the last commit was lost, the batch returns an error. It leaves no dead letter.
    pub process_parsed_batch-Stages :
        (a : Attempt X) (s : Stores J S) (event : ParsedEvent J) (events : List (ParsedEvent J))
        (plan : WritePlan J)
        → build_write_plan {X = X} C (event ∷ events) ≡ ok plan
        → Stages plan s (process_parsed_batch C a s (event ∷ events))
    unfolding process_parsed_batch carry_out write_plan
    process_parsed_batch-Stages a s event events (ops, rows) q =
        rw q (apply_surreal-Stages a.sink_error a.term a.kg ops rows s)

    Stages-ok :
        (plan : WritePlan J) (s : Stores J S) (out : Done J S X)
        → Stages plan s out
        → out.1 ≡ ok tt
        → out ≡ (final C plan s, ok tt)
    Stages-ok plan s out (sink_broken e) h = cc
    Stages-ok plan s out (only_sink e) h = cc
    Stages-ok plan s out (not_kg e) h = cc
    Stages-ok plan s out (unreported e) h = cc
    Stages-ok plan s out complete h = refl

    carry_out-ok :
        (a : Attempt X) (s : Stores J S) (planned : Planned J X)
        → (carry_out C a s planned).1 ≡ ok tt
        → carry_out C a s planned ≡ carry_out C calm s planned
    unfolding carry_out write_plan
    carry_out-ok a s (err (event, e)) h = cc
    carry_out-ok a s (ok (ops, rows)) h =
        Stages-ok (ops, rows) s _ (apply_surreal-Stages a.sink_error a.term a.kg ops rows s) h
        ∙ sym (write_plan-calm C (ops, rows) s)

    -- A batch that succeeds does what one in which nothing fails does.
    pub process_parsed_batch-ok :
        (a : Attempt X) (s : Stores J S) (events : List (ParsedEvent J))
        → (process_parsed_batch C a s events).1 ≡ ok tt
        → process_parsed_batch C a s events ≡ process_parsed_batch C (calm {X = X}) s events
    unfolding process_parsed_batch
    process_parsed_batch-ok a s [] h = refl
    process_parsed_batch-ok a s (event ∷ events) h =
        carry_out-ok a s (build_write_plan C (event ∷ events)) h
