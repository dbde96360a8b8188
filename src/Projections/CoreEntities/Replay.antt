-- ===== src/Projections/CoreEntities/Replay.antt =====
-- A batch that is tried until it succeeds, through
-- crates/projections/src/projection/dual/core_entities.rs.
use intuition_core.Base.{
  ◌≡◌, refl, sym, ap, ◌∙◌, Bool, false, Option, none, some, List, [], ◌∷◌, ok, err, Eq, text_eq,
}
use intuition_core.Errors.{
  ErrorClass, fatal, transient, circuit_protected, ProjectionError, classify,
}
use intuition_core.Events.{Serde}
use intuition_core.Events.Parsing.{ParsedEvent}
use intuition_core.Workers.Sink.{SinkOperation, DeadLetter}
use intuition_core.Workers.Sink.Letters.{record_fatal_event_twice}
use intuition_core.Projections.EntityTables.{Codecs, KgTables}
use intuition_core.Projections.EntityPlan.{
  PgTermRow, Planned, build_write_plan, insert_term_row, each_row,
}
use intuition_core.Projections.CoreEntities.{
  ProjectionSink, noop_sink, Transaction, works, fails, unanswered, Attempt, Stores, Done, and_then,
  apply_surreal, committed, lettered, commit_pg_transaction, write_kg, write_kg_batch, write_plan,
  carry_out, process_parsed_batch,
}
use intuition_core.Projections.CoreEntities.Settled.{insert_term_row-AreInsertions, each_row_twice}
use intuition_core.Projections.CoreEntities.Unsunk.{
  unsunk, unsunk_done, process_parsed_batch-unsunk,
}
use intuition_core.Projections.CoreEntities.SettledKg.{apply_kg_row-AreInsertions}
use intuition_core.Projections.CoreEntities.Written.{
  calm, upserted, kg_written, final, write_plan-calm,
}

module _ {J : Serde} {S : ProjectionSink J} where
  lettered_twice :
      {X : Type 0} (unwritten : Bool) (c : ErrorClass) (stores : Stores J S) (event : ParsedEvent J)
      (e : ProjectionError X)
      → lettered false c (lettered unwritten c stores event e) event e
        ≡ lettered false c stores event e
  unfolding lettered
  lettered_twice unwritten fatal stores event e =
      ap (λ (rows : List (DeadLetter J)). record stores { dead_letters = rows })
        (record_fatal_event_twice unwritten stores.dead_letters "core_entities" event e)
  lettered_twice unwritten transient stores event e = refl
  lettered_twice unwritten circuit_protected stores event e = refl

module _ {J : Serde} ⦃t : Eq J.Time⦄ (C : Codecs J) where
  kg_written_twice :
      (rows : List (PgTermRow J)) (kg : Option (KgTables J.Time))
      → kg_written C rows (kg_written C rows kg) ≡ kg_written C rows kg
  kg_written_twice rows none = refl
  kg_written_twice rows (some kg) = ap some (each_row_twice (apply_kg_row-AreInsertions C) rows kg)

module _ {J : Serde} {S : ProjectionSink J} ⦃t : Eq J.Time⦄ (C : Codecs J) where
  -- The plan makes the same of the second as of the first.
  record IsBehind (ops : List (SinkOperation J)) (rows : List (PgTermRow J)) (s s' : Stores J S)
      : Type 0 where
    surreal : upserted S ops s'.surreal ≡ upserted S ops s.surreal
    term : each_row (insert_term_row C) s'.term rows ≡ each_row (insert_term_row C) s.term rows
    kg : kg_written C rows s'.kg ≡ kg_written C rows s.kg
    letters : s'.dead_letters ≡ s.dead_letters

  IsBehind-refl :
      (ops : List (SinkOperation J)) (rows : List (PgTermRow J)) (s : Stores J S)
      → IsBehind ops rows s s
  IsBehind-refl ops rows s = record { surreal = refl; term = refl; kg = refl; letters = refl }

  IsBehind-trans :
      {ops : List (SinkOperation J)} {rows : List (PgTermRow J)} {a b c : Stores J S}
      → IsBehind ops rows a b
      → IsBehind ops rows b c
      → IsBehind ops rows a c
  IsBehind-trans p q = record {
    surreal = q.surreal ∙ p.surreal;
    term = q.term ∙ p.term;
    kg = q.kg ∙ p.kg;
    letters = q.letters ∙ p.letters;
  }

  final-IsBehind :
      {ops : List (SinkOperation J)} {rows : List (PgTermRow J)} {s s' : Stores J S}
      → IsBehind ops rows s s'
      → final C (ops, rows) s' ≡ final C (ops, rows) s
  final-IsBehind b = rw (b.surreal, b.term, b.kg, b.letters) refl

module _ {J : Serde} {X : Type 0} ⦃t : Eq J.Time⦄ (C : Codecs J) where
  apply_surreal-IsBehind :
      (fault : Option (ProjectionError X)) (ops : List (SinkOperation J))
      (rows : List (PgTermRow J)) (s : Stores J (noop_sink J))
      → IsBehind C ops rows s (apply_surreal fault ops s).0
  apply_surreal-IsBehind fault [] rows s = IsBehind-refl C [] rows s
  apply_surreal-IsBehind none (op ∷ ops) rows s = record {
    surreal = refl;
    term = refl;
    kg = refl;
    letters = refl;
  }
  apply_surreal-IsBehind (some e) (op ∷ ops) rows s = record {
    surreal = refl;
    term = refl;
    kg = refl;
    letters = refl;
  }

  committed-IsBehind :
      (tx : Transaction X) (ops : List (SinkOperation J)) (rows : List (PgTermRow J))
      (s s' : Stores J (noop_sink J))
      → IsBehind C ops rows s s'
      → IsBehind C ops rows s (committed tx s s').0
  committed-IsBehind works ops rows s s' b = b
  committed-IsBehind (fails e) ops rows s s' b = IsBehind-refl C ops rows s
  committed-IsBehind (unanswered e) ops rows s s' b = b

  commit_pg_transaction-IsBehind :
      (tx : Transaction X) (ops : List (SinkOperation J)) (rows : List (PgTermRow J))
      (s : Stores J (noop_sink J))
      → IsBehind C ops rows s (commit_pg_transaction C tx rows s).0
  unfolding commit_pg_transaction
  commit_pg_transaction-IsBehind tx ops [] s = IsBehind-refl C ops [] s
  commit_pg_transaction-IsBehind tx ops (row ∷ rows) s =
      committed-IsBehind tx ops (row ∷ rows) s _ (record {
        surreal = refl;
        term = each_row_twice (insert_term_row-AreInsertions C) (row ∷ rows) s.term;
        kg = refl;
        letters = refl;
      })

  write_kg-IsBehind :
      (tx : Transaction X) (ops : List (SinkOperation J)) (rows : List (PgTermRow J))
      (s : Stores J (noop_sink J)) (kg : Option (KgTables J.Time))
      → s.kg ≡ kg
      → IsBehind C ops rows s (write_kg C tx rows s kg).0
  unfolding write_kg
  write_kg-IsBehind tx ops rows s none q = IsBehind-refl C ops rows s
  write_kg-IsBehind tx ops [] s (some kg) q = IsBehind-refl C ops [] s
  write_kg-IsBehind tx ops (row ∷ rows) s (some kg) q =
      committed-IsBehind tx ops (row ∷ rows) s _ (record {
        surreal = refl;
        term = refl;
        kg =
            kg_written_twice C (row ∷ rows) (some kg)
            ∙ ap (λ (k : Option (KgTables J.Time)). kg_written C (row ∷ rows) k) (sym q);
        letters = refl;
      })

  and_then-IsBehind :
      (ops : List (SinkOperation J)) (rows : List (PgTermRow J)) (s : Stores J (noop_sink J))
      (d : Done J (noop_sink J) X) (rest : Stores J (noop_sink J) → Done J (noop_sink J) X)
      → IsBehind C ops rows s d.0
      → ((s' : Stores J (noop_sink J)) → IsBehind C ops rows s' (rest s').0)
      → IsBehind C ops rows s (and_then d rest).0
  and_then-IsBehind ops rows s (s', err e) rest b later = b
  and_then-IsBehind ops rows s (s', ok tt) rest b later = IsBehind-trans C b (later s')

  write_plan-IsBehind :
      (a : Attempt X) (ops : List (SinkOperation J)) (rows : List (PgTermRow J))
      (s : Stores J (noop_sink J))
      → IsBehind C ops rows s (write_plan C a s (ops, rows)).0
  unfolding write_plan write_kg_batch
  write_plan-IsBehind a ops rows s =
      and_then-IsBehind ops rows s (apply_surreal a.sink_error ops s) _
        (apply_surreal-IsBehind a.sink_error ops rows s)
        (λ u.
          and_then-IsBehind ops rows u (commit_pg_transaction C a.term rows u)
            (write_kg_batch C a.kg rows) (commit_pg_transaction-IsBehind a.term ops rows u)
            (λ v. write_kg-IsBehind a.kg ops rows v v.kg refl))

  carry_out_again :
      (a : Attempt X) (s : Stores J (noop_sink J)) (planned : Planned J X)
      → carry_out C (calm {X = X}) (carry_out C a s planned).0 planned ≡ carry_out C calm s planned
  unfolding carry_out
  carry_out_again a s (err (event, e)) =
      ap (λ (v : Stores J (noop_sink J)). (v, err e))
        (lettered_twice a.letter_fails (classify e) s event e)
  carry_out_again a s (ok (ops, rows)) =
      write_plan-calm C (ops, rows) (write_plan C a s (ops, rows)).0
      ∙ ap (λ (v : Stores J (noop_sink J)). (v, ok tt))
          (final-IsBehind C (write_plan-IsBehind a ops rows s))
      ∙ sym (write_plan-calm C (ops, rows) s)

  done_again :
      (a : Attempt X) (s : Stores J (noop_sink J)) (events : List (ParsedEvent J))
      → process_parsed_batch C (calm {X = X}) (process_parsed_batch C a s events).0 events
        ≡ process_parsed_batch C calm s events
  unfolding process_parsed_batch
  done_again a s [] = refl
  done_again a s (event ∷ events) = carry_out_again a s (build_write_plan C (event ∷ events))

module _ {J : Serde} {S : ProjectionSink J} {X : Type 0} ⦃t : Eq J.Time⦄ (C : Codecs J) where
  -- For what PostgreSQL holds, an attempt makes no difference to a later one in which nothing fails.
  pub process_parsed_batch_again :
      (a : Attempt X) (s : Stores J S) (events : List (ParsedEvent J))
      → process_parsed_batch C (calm {X = X}) (unsunk (process_parsed_batch C a s events).0) events
        ≡ process_parsed_batch C calm (unsunk s) events
  process_parsed_batch_again a s events =
      ap (λ (d : Done J (noop_sink J) X). process_parsed_batch C (calm {X = X}) d.0 events)
        (process_parsed_batch-unsunk C a s events)
      ∙ done_again C a (unsunk s) events

-- The worker's retries of one batch.
abbrev pub retried :
    {J : Serde} {S : ProjectionSink J} {X : Type 0} ⦃t : Eq J.Time⦄
    → Codecs J
    → List (Attempt X)
    → Stores J S
    → List (ParsedEvent J)
    → Stores J S
retried C [] stores events = stores
retried C (a ∷ later) stores events =
    retried C later (process_parsed_batch C a stores events).0 events

retried_again :
    {J : Serde} {S : ProjectionSink J} {X : Type 0} ⦃t : Eq J.Time⦄ (C : Codecs J)
    (attempts : List (Attempt X)) (stores : Stores J S) (events : List (ParsedEvent J))
    → process_parsed_batch C (calm {X = X}) (unsunk (retried C attempts stores events)) events
      ≡ process_parsed_batch C calm (unsunk stores) events
retried_again C [] stores events = refl
retried_again C (a ∷ later) stores events =
    retried_again C later (process_parsed_batch C a stores events).0 events
    ∙ process_parsed_batch_again C a stores events

-- However often a batch has failed, and wherever, the first attempt in which no database fails leaves
-- `term`, `kg` and the dead letters, and returns, as if there had been no other.
pub process_parsed_batch-retried :
    {J : Serde} {S : ProjectionSink J} {X : Type 0} ⦃t : Eq J.Time⦄ (C : Codecs J)
    (attempts : List (Attempt X)) (stores : Stores J S) (events : List (ParsedEvent J))
    → unsunk_done (process_parsed_batch C (calm {X = X}) (retried C attempts stores events) events)
      ≡ unsunk_done (process_parsed_batch C calm stores events)
process_parsed_batch-retried C attempts stores events =
    process_parsed_batch-unsunk C calm (retried C attempts stores events) events
    ∙ retried_again C attempts stores events
    ∙ sym (process_parsed_batch-unsunk C calm stores events)
