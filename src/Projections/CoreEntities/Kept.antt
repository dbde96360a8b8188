-- ===== src/Projections/CoreEntities/Kept.antt =====
-- What a batch leaves in `term`: crates/projections/src/projection/dual/core_entities.rs.
use intuition_core.Base.{
  Bool, ◌≡◌, sym, ap, subst, ◌∙◌, Option, none, some, List, [], ◌∷◌, ◌++◌, Result, ok, err, Eq, All,
  In, inl, inr,
}
use intuition_core.Errors.{
  ProjectionError, ErrorClass, fatal, transient, circuit_protected, classify,
}
use intuition_core.Events.{Serde}
use intuition_core.Events.Parsing.{ParsedEvent}
use intuition_core.Workers.Sink.{SinkOperation}
use intuition_core.Projections.EntityTables.{Codecs, Term, KgTables}
use intuition_core.Projections.EntityPlan.{
  PgTermRow, WritePlan, Planned, build_write_plan, per_event, with_event,
}
use intuition_core.Projections.CoreEntities.{
  ProjectionSink, Transaction, works, fails, unanswered, Attempt, Stores, Done, and_then,
  apply_surreal, committed, commit_pg_transaction, write_kg, write_kg_batch, write_plan, carry_out,
  process_parsed_batch, lettered,
}
use intuition_core.Projections.CoreEntities.Written.{calm, final, write_plan-calm}
use intuition_core.Projections.CoreEntities.Settled.{
  InTerm, insert_term_row-AreInsertions, each_row-stays, each_row-settles,
}

-- The plan of an event, with all its rows in `term`.
abbrev pub InPlace :
    {J : Serde} {X : Type 0} → Result (ProjectionError X) (WritePlan J) → Term J.Time → Type 0
InPlace (err e) term = ⊥
InPlace (ok (ops, rows)) term = All (λ row. InTerm row term) rows

abbrev pub InPlan : {J : Serde} {X : Type 0} → Planned J X → Term J.Time → Type 0
InPlan (err e) term = ⊥
InPlan (ok (ops, rows)) term = All (λ row. InTerm row term) rows

module _ {A : Type 0} (P : A → Type 0) where
  All-left : (ps qs : List A) → All P (ps ++ qs) → All P ps
  All-left [] qs h = tt
  All-left (p ∷ ps) qs (h, hs) = (h, All-left ps qs hs)

  All-right : (ps qs : List A) → All P (ps ++ qs) → All P qs
  All-right [] qs h = h
  All-right (p ∷ ps) qs (h, hs) = All-right ps qs hs

  All-map : (Q : A → Type 0) (ps : List A) → ((a : A) → P a → Q a) → All P ps → All Q ps
  All-map Q [] f h = tt
  All-map Q (p ∷ ps) f (h, hs) = (f p h, All-map Q ps f hs)

module _ {J : Serde} {X : Type 0} where
  with_event-InPlan :
      (event : ParsedEvent J) (made : Result (ProjectionError X) (WritePlan J)) (rest : Planned J X)
      (term : Term J.Time)
      → InPlan (with_event event made rest) term
      → InPlace made term × InPlan rest term
  with_event-InPlan event (err e) rest term h = absurd h
  with_event-InPlan event (ok plan) (err e) term h = absurd h
  with_event-InPlan event (ok (ops, rows)) (ok (more, others)) term h = (
    All-left (λ row. InTerm row term) rows others h,
    All-right (λ row. InTerm row term) rows others h,
  )

  pub InPlace-keeps :
      (made : Result (ProjectionError X) (WritePlan J)) (term term' : Term J.Time)
      → ((row : PgTermRow J) → InTerm row term → InTerm row term')
      → InPlace made term
      → InPlace made term'
  InPlace-keeps (err e) term term' f h = h
  InPlace-keeps (ok (ops, rows)) term term' f h =
      All-map (λ row. InTerm row term) (λ row. InTerm row term') rows f h

module _ {J : Serde} (X : Type 0) (C : Codecs J) where
  pub build_write_plan-InPlace :
      (events : List (ParsedEvent J)) (event : ParsedEvent J) (term : Term J.Time)
      → InPlan (build_write_plan {X = X} C events) term
      → In event events
      → InPlace (per_event {X = X} C event) term
  unfolding build_write_plan
  build_write_plan-InPlace [] event term h m = absurd m
  build_write_plan-InPlace (e ∷ es) event term h (inl q) =
      subst (λ (z : ParsedEvent J). InPlace (per_event {X = X} C z) term) (sym q)
        (with_event-InPlan e (per_event C e) (build_write_plan C es) term h).0
  build_write_plan-InPlace (e ∷ es) event term h (inr m) =
      build_write_plan-InPlace es event term
        (with_event-InPlan e (per_event C e) (build_write_plan C es) term h).1 m

module _ {J : Serde} {S : ProjectionSink J} where
  -- `term` loses no row.
  abbrev pub Keeps : Stores J S → Stores J S → Type 0
  Keeps s s' = (row : PgTermRow J) → InTerm row s.term → InTerm row s'.term

module _ {J : Serde} {S : ProjectionSink J} {X : Type 0} ⦃t : Eq J.Time⦄ (C : Codecs J) where
  carry_out-InPlan :
      (s s' : Stores J S) (planned : Planned J X)
      → carry_out C calm s planned ≡ (s', ok tt)
      → InPlan planned s'.term
  unfolding carry_out
  carry_out-InPlan s s' (err (event, e)) h = cc
  carry_out-InPlan s s' (ok (ops, rows)) h =
      let same : final C (ops, rows) s ≡ s' =
        ap (λ (d : Done J S X). d.0) (sym (write_plan-calm C (ops, rows) s) ∙ h) in
      subst (λ (z : Stores J S). All (λ row. InTerm row z.term) rows) same
        (each_row-settles (insert_term_row-AreInsertions C) rows s.term)

  -- A batch that was written everywhere has the rows of each of its events in `term`.
  pub process_parsed_batch-InPlace :
      (s s' : Stores J S) (events : List (ParsedEvent J)) (event : ParsedEvent J)
      → process_parsed_batch C (calm {X = X}) s events ≡ (s', ok tt)
      → In event events
      → InPlace (per_event {X = X} C event) s'.term
  unfolding process_parsed_batch
  process_parsed_batch-InPlace s s' [] event h m = absurd m
  process_parsed_batch-InPlace s s' (e ∷ es) event h m =
      build_write_plan-InPlace X C (e ∷ es) event s'.term
        (carry_out-InPlan s s' (build_write_plan C (e ∷ es)) h) m

  lettered-Keeps :
      (unwritten : Bool) (k : ErrorClass) (s : Stores J S) (event : ParsedEvent J)
      (e : ProjectionError X)
      → Keeps s (lettered unwritten k s event e)
  unfolding lettered
  lettered-Keeps unwritten fatal s event e = λ row m. m
  lettered-Keeps unwritten transient s event e = λ row m. m
  lettered-Keeps unwritten circuit_protected s event e = λ row m. m

  and_then-Keeps :
      (s : Stores J S) (d : Done J S X) (rest : Stores J S → Done J S X)
      → Keeps s d.0
      → ((s' : Stores J S) → Keeps s' (rest s').0)
      → Keeps s (and_then d rest).0
  and_then-Keeps s (s', err e) rest k later = k
  and_then-Keeps s (s', ok tt) rest k later = λ row m. later s' row (k row m)

  apply_surreal-Keeps :
      (fault : Option (ProjectionError X)) (ops : List (SinkOperation J)) (s : Stores J S)
      → Keeps s (apply_surreal fault ops s).0
  apply_surreal-Keeps fault [] s = λ row m. m
  apply_surreal-Keeps none (op ∷ ops) s = λ row m. m
  apply_surreal-Keeps (some e) (op ∷ ops) s = λ row m. m

  committed-Keeps :
      (tx : Transaction X) (s s' : Stores J S) → Keeps s s' → Keeps s (committed tx s s').0
  committed-Keeps works s s' k = k
  committed-Keeps (fails e) s s' k = λ row m. m
  committed-Keeps (unanswered e) s s' k = k

  commit_pg_transaction-Keeps :
      (tx : Transaction X) (rows : List (PgTermRow J)) (s : Stores J S)
      → Keeps s (commit_pg_transaction C tx rows s).0
  unfolding commit_pg_transaction
  commit_pg_transaction-Keeps tx [] s = λ row m. m
  commit_pg_transaction-Keeps tx (r ∷ rows) s =
      committed-Keeps tx s _
        (λ row m. each_row-stays (insert_term_row-AreInsertions C) (r ∷ rows) s.term row m)

  write_kg-Keeps :
      (tx : Transaction X) (rows : List (PgTermRow J)) (s : Stores J S)
      (kg : Option (KgTables J.Time))
      → Keeps s (write_kg C tx rows s kg).0
  unfolding write_kg
  write_kg-Keeps tx rows s none = λ row m. m
  write_kg-Keeps tx [] s (some kg) = λ row m. m
  write_kg-Keeps tx (r ∷ rows) s (some kg) = committed-Keeps tx s _ (λ row m. m)

  carry_out-Keeps :
      (a : Attempt X) (s : Stores J S) (planned : Planned J X) → Keeps s (carry_out C a s planned).0
  unfolding carry_out write_plan write_kg_batch
  carry_out-Keeps a s (err (event, e)) = lettered-Keeps a.letter_fails (classify e) s event e
  carry_out-Keeps a s (ok (ops, rows)) =
      and_then-Keeps s (apply_surreal a.sink_error ops s) _ (apply_surreal-Keeps a.sink_error ops s)
        (λ u.
          and_then-Keeps u (commit_pg_transaction C a.term rows u) (write_kg_batch C a.kg rows)
            (commit_pg_transaction-Keeps a.term rows u) (λ v. write_kg-Keeps a.kg rows v v.kg))

  pub process_parsed_batch-Keeps :
      (a : Attempt X) (s : Stores J S) (events : List (ParsedEvent J))
      → Keeps s (process_parsed_batch C a s events).0
  unfolding process_parsed_batch
  process_parsed_batch-Keeps a s [] = λ row m. m
  process_parsed_batch-Keeps a s (e ∷ es) = carry_out-Keeps a s (build_write_plan C (e ∷ es))
