-- ===== src/Projections/CoreEntities/Fallback.antt =====
-- An event whose payload was not read is written like one whose payload was, if it has the same fields:
-- the raw fall-backs of crates/projections/src/projection/dual/core_entities.rs.
use intuition_core.Base.{
  ◌≡◌, refl, ap, ◌∙◌, Option, none, some, List, [], ◌∷◌, ◌++◌, Result, ok, err, Eq, text_eq,
}
use intuition_core.Errors.{ProjectionError}
use intuition_core.Events.{Serde, StoredEvent, AtomCreatedRecord, TripleCreatedRecord}
use intuition_core.Events.Parsing.{ParsedEvent, EventMetadata}
use intuition_core.Projections.EntityTables.{Codecs, Term, KgTables}
use intuition_core.Projections.EntityPlan.{
  PgTermRow, atom, triple, atom_raw, triple_raw, WritePlan, Planned, per_event, and_rest,
  with_event, build_write_plan, insert_term_row, apply_kg_row, each_row, build_atom_ops_typed,
  build_triple_ops_typed,
}
use intuition_core.Projections.CoreEntities.{
  ProjectionSink, Transaction, Attempt, Stores, Done, and_then, apply_surreal, committed,
  commit_pg_transaction, write_kg, write_kg_batch, write_plan, carry_out, process_parsed_batch,
}
use intuition_core.Projections.CoreEntities.Alike.{
  SameEnvelope, IsAlike, itself, raw_atom, raw_triple, AreAlike, per_event-unknown_atom,
  per_event-unknown_triple,
}

module _ {J : Serde} ⦃t : Eq J.Time⦄ (C : Codecs J) where
  -- Rows that write the same.
  record SameRow (row row' : PgTermRow J) : Type 0 where
    in_term : (term : Term J.Time) → insert_term_row C term row ≡ insert_term_row C term row'
    in_kg : (kg : KgTables J.Time) → apply_kg_row C kg row ≡ apply_kg_row C kg row'

  abbrev SameRows : List (PgTermRow J) → List (PgTermRow J) → Type 0
  SameRows [] [] = Unit
  SameRows [] (f ∷ fs) = ⊥
  SameRows (e ∷ es) [] = ⊥
  SameRows (e ∷ es) (f ∷ fs) = SameRow e f × SameRows es fs

  SameRows-self : (rows : List (PgTermRow J)) → SameRows rows rows
  SameRows-self [] = tt
  SameRows-self (row ∷ rows) =
      (record { in_term = λ term. refl; in_kg = λ kg. refl }, SameRows-self rows)

  SameRows-append :
      (ps qs cs ds : List (PgTermRow J))
      → SameRows ps qs
      → SameRows cs ds
      → SameRows (ps ++ cs) (qs ++ ds)
  SameRows-append [] [] cs ds h k = k
  SameRows-append [] (q ∷ qs) cs ds h k = absurd h
  SameRows-append (p ∷ ps) [] cs ds h k = absurd h
  SameRows-append (p ∷ ps) (q ∷ qs) cs ds (h, hs) k = (h, SameRows-append ps qs cs ds hs k)

  atom-SameRow :
      (m : EventMetadata J) (d : AtomCreatedRecord) (raw : StoredEvent J)
      → SameEnvelope C m raw
      → SameRow (atom m d) (atom_raw raw d.creator d.term_id d.atom_data)
  unfolding insert_term_row apply_kg_row
  atom-SameRow m d raw h = record {
    in_term = λ term. rw (h.block_number, h.block_timestamp, h.transaction_hash) refl;
    in_kg = λ kg. rw (h.block_number, h.block_timestamp, h.transaction_hash, h.log_index) refl;
  }

  triple-SameRow :
      (m : EventMetadata J) (d : TripleCreatedRecord) (raw : StoredEvent J)
      → SameEnvelope C m raw
      → SameRow
          (triple m d)
          (triple_raw raw d.creator d.term_id d.subject_id d.predicate_id d.object_id)
  unfolding insert_term_row apply_kg_row
  triple-SameRow m d raw h = record {
    in_term = λ term. rw (h.block_number, h.block_timestamp, h.transaction_hash) refl;
    in_kg = λ kg. rw (h.block_number, h.block_timestamp, h.transaction_hash, h.log_index) refl;
  }

  each_row-term :
      (ps qs : List (PgTermRow J)) (term : Term J.Time)
      → SameRows ps qs
      → each_row (insert_term_row C) term ps ≡ each_row (insert_term_row C) term qs
  each_row-term [] [] term h = refl
  each_row-term [] (q ∷ qs) term h = absurd h
  each_row-term (p ∷ ps) [] term h = absurd h
  each_row-term (p ∷ ps) (q ∷ qs) term (h, hs) =
      each_row-term ps qs (insert_term_row C term p) hs
      ∙ ap (λ (v : Term J.Time). each_row (insert_term_row C) v qs) (h.in_term term)

  each_row-kg :
      (ps qs : List (PgTermRow J)) (kg : KgTables J.Time)
      → SameRows ps qs
      → each_row (apply_kg_row C) kg ps ≡ each_row (apply_kg_row C) kg qs
  each_row-kg [] [] kg h = refl
  each_row-kg [] (q ∷ qs) kg h = absurd h
  each_row-kg (p ∷ ps) [] kg h = absurd h
  each_row-kg (p ∷ ps) (q ∷ qs) kg (h, hs) =
      each_row-kg ps qs (apply_kg_row C kg p) hs
      ∙ ap (λ (v : KgTables J.Time). each_row (apply_kg_row C) v qs) (h.in_kg kg)

  -- Plans that write the same.
  abbrev SamePlan : {X : Type 0} → Planned J X → Planned J X → Type 0
  SamePlan (err x) (err y) = x ≡ y
  SamePlan (err x) (ok plan) = ⊥
  SamePlan (ok plan) (err y) = ⊥
  SamePlan (ok (ops, rows)) (ok (ops', rows')) = (ops ≡ ops') × SameRows rows rows'

  module _ {X : Type 0} where
    and_rest-SamePlan :
        (plan plan' : WritePlan J) (rest rest' : Planned J X)
        → plan.0 ≡ plan'.0
        → SameRows plan.1 plan'.1
        → SamePlan rest rest'
        → SamePlan (and_rest plan rest) (and_rest plan' rest')
    and_rest-SamePlan plan plan' (err x) (err y) q h k = k
    and_rest-SamePlan plan plan' (err x) (ok more) q h k = absurd k
    and_rest-SamePlan plan plan' (ok more) (err y) q h k = absurd k
    and_rest-SamePlan (ops, rows) (ops', rows') (ok (m, r)) (ok (m', r')) q h (k, l) =
        (rw (q, k) refl, SameRows-append rows rows' r r' h l)

    with_event-SamePlan :
        (event : ParsedEvent J) (made : Result (ProjectionError X) (WritePlan J))
        (rest rest' : Planned J X)
        → SamePlan rest rest'
        → SamePlan (with_event event made rest) (with_event event made rest')
    with_event-SamePlan event (err e) rest rest' k = refl
    with_event-SamePlan event (ok plan) rest rest' k =
        and_rest-SamePlan plan plan rest rest' refl (SameRows-self plan.1) k

    event-SamePlan :
        (e f : ParsedEvent J) (rest rest' : Planned J X)
        → IsAlike C e f
        → SamePlan rest rest'
        → SamePlan (with_event e (per_event C e) rest) (with_event f (per_event C f) rest')
    unfolding per_event
    event-SamePlan e f rest rest' (itself event) k =
        with_event-SamePlan event (per_event C event) rest rest' k
    event-SamePlan e f rest rest' (raw_atom m d raw h) k =
        rw (per_event-unknown_atom C {X = X} m d raw h) (
          and_rest-SamePlan (build_atom_ops_typed C m d, atom m d ∷ [])
            (build_atom_ops_typed C m d, atom_raw raw d.creator d.term_id d.atom_data ∷ []) rest
            rest' refl (atom-SameRow m d raw h.envelope, tt) k)
    event-SamePlan e f rest rest' (raw_triple m d raw h) k =
        rw (per_event-unknown_triple C {X = X} m d raw h) (
          and_rest-SamePlan (build_triple_ops_typed C m d, triple m d ∷ [])
            (
              build_triple_ops_typed C m d,
              triple_raw raw d.creator d.term_id d.subject_id d.predicate_id d.object_id ∷ [],
            )
            rest rest' refl (triple-SameRow m d raw h.envelope, tt) k)

  build_write_plan-SamePlan :
      (X : Type 0) (es fs : List (ParsedEvent J))
      → AreAlike C es fs
      → SamePlan {X = X} (build_write_plan C es) (build_write_plan C fs)
  unfolding build_write_plan
  build_write_plan-SamePlan X [] [] h = (refl, tt)
  build_write_plan-SamePlan X [] (f ∷ fs) h = absurd h
  build_write_plan-SamePlan X (e ∷ es) [] h = absurd h
  build_write_plan-SamePlan X (e ∷ es) (f ∷ fs) (h, hs) =
      event-SamePlan e f (build_write_plan C es) (build_write_plan C fs) h
        (build_write_plan-SamePlan X es fs hs)

  module _ {S : ProjectionSink J} {X : Type 0} where
    commit_pg_transaction-same :
        (tx : Transaction X) (ps qs : List (PgTermRow J)) (s : Stores J S)
        → SameRows ps qs
        → commit_pg_transaction C tx ps s ≡ commit_pg_transaction C tx qs s
    unfolding commit_pg_transaction
    commit_pg_transaction-same tx [] [] s h = refl
    commit_pg_transaction-same tx [] (q ∷ qs) s h = absurd h
    commit_pg_transaction-same tx (p ∷ ps) [] s h = absurd h
    commit_pg_transaction-same tx (p ∷ ps) (q ∷ qs) s h =
        ap (λ (term : Term J.Time). committed tx s (record s { term = term }))
          (each_row-term (p ∷ ps) (q ∷ qs) s.term h)

    write_kg-same :
        (tx : Transaction X) (ps qs : List (PgTermRow J)) (s : Stores J S)
        (kg : Option (KgTables J.Time))
        → SameRows ps qs
        → write_kg C tx ps s kg ≡ write_kg C tx qs s kg
    unfolding write_kg
    write_kg-same tx ps qs s none h = refl
    write_kg-same tx [] [] s (some kg) h = refl
    write_kg-same tx [] (q ∷ qs) s (some kg) h = absurd h
    write_kg-same tx (p ∷ ps) [] s (some kg) h = absurd h
    write_kg-same tx (p ∷ ps) (q ∷ qs) s (some kg) h =
        ap (λ (k : KgTables J.Time). committed tx s (record s { kg = some k }))
          (each_row-kg (p ∷ ps) (q ∷ qs) kg h)

    and_then-same :
        (d : Done J S X) (k l : Stores J S → Done J S X)
        → ((s : Stores J S) → k s ≡ l s)
        → and_then d k ≡ and_then d l
    and_then-same (s, err e) k l h = refl
    and_then-same (s, ok tt) k l h = h s

    carry_out-same :
        (a : Attempt X) (s : Stores J S) (p q : Planned J X)
        → SamePlan p q
        → carry_out C a s p ≡ carry_out C a s q
    unfolding carry_out write_plan write_kg_batch
    carry_out-same a s (err x) (err y) h = rw h refl
    carry_out-same a s (err x) (ok plan) h = absurd h
    carry_out-same a s (ok plan) (err y) h = absurd h
    carry_out-same a s (ok (ops, rows)) (ok (ops', rows')) (o, h) = rw o (
        and_then-same (apply_surreal a.sink_error ops' s) _ _ (λ u.
          rw (commit_pg_transaction-same a.term rows rows' u h) (
            and_then-same (commit_pg_transaction C a.term rows' u) _ _
              (λ v. write_kg-same a.kg rows rows' v v.kg h))))

    -- Whatever fails: two batches whose events are alike one by one - the same event, or an atom or a triple
    -- whose payload was read in the one and is a raw value with the same fields, in the same transaction of
    -- the same block, in the other - leave the same in all stores and return the same.
    pub process_parsed_batch-AreAlike :
        (a : Attempt X) (s : Stores J S) (es fs : List (ParsedEvent J))
        → AreAlike C es fs
        → process_parsed_batch C a s es ≡ process_parsed_batch C a s fs
    unfolding process_parsed_batch
    process_parsed_batch-AreAlike a s [] [] h = refl
    process_parsed_batch-AreAlike a s [] (f ∷ fs) h = absurd h
    process_parsed_batch-AreAlike a s (e ∷ es) [] h = absurd h
    process_parsed_batch-AreAlike a s (e ∷ es) (f ∷ fs) h =
        carry_out-same a s (build_write_plan C (e ∷ es)) (build_write_plan C (f ∷ fs))
          (build_write_plan-SamePlan X (e ∷ es) (f ∷ fs) h)
