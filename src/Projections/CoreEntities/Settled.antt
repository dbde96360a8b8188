-- ===== src/Projections/CoreEntities/Settled.antt =====
-- Rows that are written once are not written again: the statements of
-- crates/projections/src/projection/dual/core_entities.rs, each with ON CONFLICT DO NOTHING.
use Prim.Native.String.{String}
use intuition_core.Base.{
  ◌≡◌, refl, ap, ◌∙◌, List, [], ◌∷◌, All, Eq, text_eq, pair_eq, HasKey, insert_new-HasKey,
  HasKey-insert_new, insert_new_known,
}
use intuition_core.Events.{Serde}
use intuition_core.Projections.EntityTables.{
  Codecs, Term, insert_atom_term_pg_raw, insert_triple_term_pg_raw,
}
use intuition_core.Projections.EntityPlan.{
  PgTermRow, atom, triple, atom_raw, triple_raw, insert_term_row, each_row,
}

-- Writes that leave a row settled, after which it changes nothing.
pub record AreInsertions {S R : Type 0} (write : S → R → S) (Settled : R → S → Type 0)
    : Type 0 where
  pub settles : (s : S) (r : R) → Settled r (write s r)
  pub stays : (s : S) (r q : R) → Settled r s → Settled r (write s q)
  pub known : (s : S) (r : R) → Settled r s → write s r ≡ s

module _ {S R : Type 0} {write : S → R → S} {Settled : R → S → Type 0}
    (W : AreInsertions write Settled) where
  pub each_row-stays :
      (rows : List R) (s : S) (r : R) → Settled r s → Settled r (each_row write s rows)
  each_row-stays [] s r h = h
  each_row-stays (row ∷ rows) s r h = each_row-stays rows (write s row) r (W.stays s r row h)

  pub each_row-settles : (rows : List R) (s : S) → All (λ r. Settled r (each_row write s rows)) rows
  each_row-settles [] s = tt
  each_row-settles (row ∷ rows) s =
      (each_row-stays rows (write s row) row (W.settles s row), each_row-settles rows (write s row))

  each_row-known : (rows : List R) (s : S) → All (λ r. Settled r s) rows → each_row write s rows ≡ s
  each_row-known [] s h = refl
  each_row-known (row ∷ rows) s (h, hs) =
      let same = W.known s row h in ap (λ v. each_row write v rows) same ∙ each_row-known rows s hs

  pub each_row_twice :
      (rows : List R) (s : S) → each_row write (each_row write s rows) rows ≡ each_row write s rows
  each_row_twice rows s = each_row-known rows (each_row write s rows) (each_row-settles rows s)

module _ {J : Serde} where
  abbrev term_id_of : PgTermRow J → String
  term_id_of (atom metadata d) = d.term_id
  term_id_of (triple metadata d) = d.term_id
  term_id_of (atom_raw raw creator term_id atom_data_hex) = term_id
  term_id_of (triple_raw raw creator term_id subject_id predicate_id object_id) = term_id

  abbrev pub InTerm : PgTermRow J → Term J.Time → Type 0
  InTerm row term = HasKey (term_id_of row) term

module _ {J : Serde} ⦃t : Eq J.Time⦄ (C : Codecs J) where
  insert_term_row-settles :
      (term : Term J.Time) (row : PgTermRow J) → InTerm row (insert_term_row C term row)
  unfolding insert_term_row insert_atom_term_pg_raw insert_triple_term_pg_raw
  insert_term_row-settles term (atom metadata d) = insert_new-HasKey term _ _
  insert_term_row-settles term (triple metadata d) = insert_new-HasKey term _ _
  insert_term_row-settles term (atom_raw raw creator term_id atom_data_hex) =
      insert_new-HasKey term _ _
  insert_term_row-settles term (triple_raw raw creator term_id subject_id predicate_id object_id) =
      insert_new-HasKey term _ _

  insert_term_row-stays :
      (term : Term J.Time) (row other : PgTermRow J)
      → InTerm row term
      → InTerm row (insert_term_row C term other)
  unfolding insert_term_row insert_atom_term_pg_raw insert_triple_term_pg_raw
  insert_term_row-stays term row (atom metadata d) h = HasKey-insert_new term _ _ _ h
  insert_term_row-stays term row (triple metadata d) h = HasKey-insert_new term _ _ _ h
  insert_term_row-stays term row (atom_raw raw creator term_id atom_data_hex) h =
      HasKey-insert_new term _ _ _ h
  insert_term_row-stays term row (triple_raw raw creator term_id subject_id predicate_id object_id)
        h =
      HasKey-insert_new term _ _ _ h

  insert_term_row-known :
      (term : Term J.Time) (row : PgTermRow J) → InTerm row term → insert_term_row C term row ≡ term
  unfolding insert_term_row insert_atom_term_pg_raw insert_triple_term_pg_raw
  insert_term_row-known term (atom metadata d) h = insert_new_known term _ _ h
  insert_term_row-known term (triple metadata d) h = insert_new_known term _ _ h
  insert_term_row-known term (atom_raw raw creator term_id atom_data_hex) h =
      insert_new_known term _ _ h
  insert_term_row-known term (triple_raw raw creator term_id subject_id predicate_id object_id) h =
      insert_new_known term _ _ h

  pub insert_term_row-AreInsertions : AreInsertions (insert_term_row C) InTerm
  insert_term_row-AreInsertions = record {
    settles = insert_term_row-settles;
    stays = insert_term_row-stays;
    known = insert_term_row-known;
  }
