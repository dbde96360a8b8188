-- ===== src/Projections/CoreEntities/Unsunk.antt =====
-- What crates/projections/src/projection/dual/core_entities.rs writes to PostgreSQL does not depend on the
-- sink: with `NoopSink` it is the same.
use intuition_core.Base.{◌≡◌, refl, ap, ◌∙◌, Bool, Option, none, some, List, [], ◌∷◌, ok, err, Eq}
use intuition_core.Errors.{
  ErrorClass, fatal, transient, circuit_protected, ProjectionError, classify,
}
use intuition_core.Events.{Serde}
use intuition_core.Events.Parsing.{ParsedEvent}
use intuition_core.Workers.Sink.{SinkOperation}
use intuition_core.Projections.EntityTables.{Codecs, KgTables}
use intuition_core.Projections.EntityPlan.{PgTermRow, Planned, build_write_plan}
use intuition_core.Projections.CoreEntities.{
  ProjectionSink, noop_sink, Transaction, works, fails, unanswered, Attempt, Stores, Done, and_then,
  applied, apply_surreal, committed, lettered, commit_pg_transaction, write_kg, write_kg_batch,
  write_plan, carry_out, process_parsed_batch,
}

module _ {J : Serde} {S : ProjectionSink J} where
  -- The stores without what SurrealDB holds.
  abbrev pub unsunk : Stores J S → Stores J (noop_sink J)
  unsunk s = record { surreal = tt; term = s.term; kg = s.kg; dead_letters = s.dead_letters }

module _ {J : Serde} {S : ProjectionSink J} {X : Type 0} where
  abbrev pub unsunk_done : Done J S X → Done J (noop_sink J) X
  unsunk_done (s, r) = (unsunk s, r)

  and_then-unsunk :
      (d : Done J S X) (rest : Stores J S → Done J S X)
      (rest' : Stores J (noop_sink J) → Done J (noop_sink J) X)
      → ((s : Stores J S) → unsunk_done (rest s) ≡ rest' (unsunk s))
      → unsunk_done (and_then d rest) ≡ and_then (unsunk_done d) rest'
  and_then-unsunk (s, ok tt) rest rest' h = h s
  and_then-unsunk (s, err e) rest rest' h = refl

  applied-unsunk :
      (fault : Option (ProjectionError X)) (ops : List (SinkOperation J)) (s : Stores J S)
      → unsunk_done (applied fault ops s) ≡ applied fault ops (unsunk s)
  applied-unsunk none ops s = refl
  applied-unsunk (some e) ops s = refl

  apply_surreal-unsunk :
      (fault : Option (ProjectionError X)) (ops : List (SinkOperation J)) (s : Stores J S)
      → unsunk_done (apply_surreal fault ops s) ≡ apply_surreal fault ops (unsunk s)
  apply_surreal-unsunk fault [] s = refl
  apply_surreal-unsunk fault (op ∷ ops) s = applied-unsunk fault (op ∷ ops) s

  committed-unsunk :
      (tx : Transaction X) (before after : Stores J S)
      → unsunk_done (committed tx before after) ≡ committed tx (unsunk before) (unsunk after)
  committed-unsunk works before after = refl
  committed-unsunk (fails e) before after = refl
  committed-unsunk (unanswered e) before after = refl

  lettered-unsunk :
      (letter_fails : Bool) (k : ErrorClass) (s : Stores J S) (event : ParsedEvent J)
      (e : ProjectionError X)
      → unsunk (lettered letter_fails k s event e) ≡ lettered letter_fails k (unsunk s) event e
  unfolding lettered
  lettered-unsunk letter_fails fatal s event e = refl
  lettered-unsunk letter_fails transient s event e = refl
  lettered-unsunk letter_fails circuit_protected s event e = refl

module _ {J : Serde} {S : ProjectionSink J} {X : Type 0} ⦃t : Eq J.Time⦄ (C : Codecs J) where
  commit_pg_transaction-unsunk :
      (tx : Transaction X) (rows : List (PgTermRow J)) (s : Stores J S)
      → unsunk_done (commit_pg_transaction C tx rows s) ≡ commit_pg_transaction C tx rows (unsunk s)
  unfolding commit_pg_transaction
  commit_pg_transaction-unsunk tx [] s = refl
  commit_pg_transaction-unsunk tx (row ∷ rows) s = committed-unsunk tx s _

  write_kg-unsunk :
      (tx : Transaction X) (rows : List (PgTermRow J)) (s : Stores J S)
      (kg : Option (KgTables J.Time))
      → unsunk_done (write_kg C tx rows s kg) ≡ write_kg C tx rows (unsunk s) kg
  unfolding write_kg
  write_kg-unsunk tx rows s none = refl
  write_kg-unsunk tx [] s (some kg) = refl
  write_kg-unsunk tx (row ∷ rows) s (some kg) = committed-unsunk tx s _

  write_plan-unsunk :
      (a : Attempt X) (ops : List (SinkOperation J)) (rows : List (PgTermRow J)) (s : Stores J S)
      → unsunk_done (write_plan C a s (ops, rows)) ≡ write_plan C a (unsunk s) (ops, rows)
  unfolding write_plan write_kg_batch
  write_plan-unsunk a ops rows s =
      and_then-unsunk (apply_surreal a.sink_error ops s) _ _ (λ u.
        and_then-unsunk (commit_pg_transaction C a.term rows u) (write_kg_batch C a.kg rows)
          (write_kg_batch C a.kg rows) (λ v. write_kg-unsunk a.kg rows v v.kg)
        ∙ ap (λ (d : Done J (noop_sink J) X). and_then d (write_kg_batch C a.kg rows))
            (commit_pg_transaction-unsunk a.term rows u))
      ∙ ap
          (λ (d : Done J (noop_sink J) X).
            and_then d
              (λ u. and_then (commit_pg_transaction C a.term rows u) (write_kg_batch C a.kg rows)))
          (apply_surreal-unsunk a.sink_error ops s)

  carry_out-unsunk :
      (a : Attempt X) (s : Stores J S) (planned : Planned J X)
      → unsunk_done (carry_out C a s planned) ≡ carry_out C a (unsunk s) planned
  unfolding carry_out
  carry_out-unsunk a s (err (event, e)) =
      ap (λ (v : Stores J (noop_sink J)). (v, err e))
        (lettered-unsunk a.letter_fails (classify e) s event e)
  carry_out-unsunk a s (ok (ops, rows)) = write_plan-unsunk a ops rows s

  pub process_parsed_batch-unsunk :
      (a : Attempt X) (s : Stores J S) (events : List (ParsedEvent J))
      → unsunk_done (process_parsed_batch C a s events) ≡ process_parsed_batch C a (unsunk s) events
  unfolding process_parsed_batch
  process_parsed_batch-unsunk a s [] = refl
  process_parsed_batch-unsunk a s (event ∷ events) =
      carry_out-unsunk a s (build_write_plan C (event ∷ events))
