-- ===== src/Workers/Sink/Letters.antt =====
-- The dead-letter table keeps what is written to it: crates/projections/src/repo/dead_letter_repo.rs.
use Prim.Native.String.{String}
use intuition_core.Base.{
  ℕ, ◌≡◌, ◌⊎◌, ◌==◌, ◌&&◌, refl, inl, inr, subst, arith, false, List, [], ◌∷◌, Result, ok, err,
  true, Bool, ==_iff, Bool-cases, same_text, same_text_iff,
}
use intuition_core.Errors.{ProjectionError}
use intuition_core.Events.{EventType, Payload, Serde, StoredEvent}
use intuition_core.Events.Parsing.{
  ParsedEvent, typed, unknown, sequence_number, as_stored_event, stored_event_from_parts,
}
use intuition_core.Workers.Sink.{DeadLetter, record_fatal, record_fatal_event, inserted, letter_of}

module _ {J : Serde} where
  -- The event of that number is in the table under the projection's name.
  abbrev pub IsLettered : String → ℕ → List (DeadLetter J) → Type 0
  IsLettered name n [] = ⊥
  IsLettered name n (row ∷ rows) =
      ((row.projection_name ≡ name) × (row.sequence_number ≡ n)) ⊎ IsLettered name n rows

  pub record_fatal-IsLettered :
      (rows : List (DeadLetter J)) (letter : DeadLetter J)
      → IsLettered letter.projection_name letter.sequence_number (record_fatal rows letter)
        × ((name : String) (n : ℕ)
            → IsLettered name n rows
            → IsLettered name n (record_fatal rows letter))
  unfolding record_fatal
  record_fatal-IsLettered [] letter = (inl (refl, refl), λ name n m. absurd m)
  record_fatal-IsLettered (row ∷ rows) letter =
      let (new, old) = record_fatal-IsLettered rows letter in
      let same =
        same_text row.projection_name letter.projection_name
        && row.sequence_number == letter.sequence_number in
      elim (Bool-cases same) [
        | inl y ↦ rw y (
          inl (ground (arith, same_text_iff row.projection_name letter.projection_name, y)),
          λ name n m. m,
        )
        | inr o ↦ rw o (inr new, λ name n m. elim m [ inl e ↦ inl e | inr r ↦ inr (old name n r) ])
      ]

-- Every record has a JSON form.
abbrev pub Serialises : Serde → Type 0
Serialises J = (t : EventType) (d : Payload J.Decimal t) → (v : J.Value) × (J.to_value t d ≡ ok v)

module _ {J : Serde} (serialises : Serialises J) where
  stored_form :
      (event : ParsedEvent J)
      → (s : StoredEvent J) × (as_stored_event event ≡ ok s)
        × (s.sequence_number ≡ sequence_number event)
  unfolding as_stored_event sequence_number stored_event_from_parts
  stored_form (typed metadata t d) =
      let (v, q) = serialises t d in (stored_event_from_parts metadata v, rw q refl, refl)
  stored_form (unknown e) = (e, refl, refl)

  -- The event is written, and what was there stays.
  pub record_fatal_event-IsLettered :
      {X : Type 0} (rows : List (DeadLetter J)) (name : String) (event : ParsedEvent J)
      (e : ProjectionError X)
      → IsLettered name (sequence_number event) (record_fatal_event false rows name event e)
        × ((other : String) (n : ℕ)
            → IsLettered other n rows
            → IsLettered other n (record_fatal_event false rows name event e))
  unfolding record_fatal_event inserted
  record_fatal_event-IsLettered rows name event e =
      let (s, q, m) = stored_form event in
      let (new, old) = record_fatal-IsLettered rows (letter_of name event e s) in
      rw q (
        subst (λ (n : ℕ). IsLettered name n (record_fatal rows (letter_of name event e s))) m new,
        old,
      )

module _ {J : Serde} where
  -- A letter that is there is not written again.
  record_fatal_twice :
      (rows : List (DeadLetter J)) (letter : DeadLetter J)
      → record_fatal (record_fatal rows letter) letter ≡ record_fatal rows letter
  unfolding record_fatal
  record_fatal_twice [] letter =
      let y = (same_text_iff letter.projection_name letter.projection_name).1 refl in
      let z = (==_iff letter.sequence_number letter.sequence_number).1 refl in rw (y, z) refl
  record_fatal_twice (row ∷ rows) letter =
      elim (Bool-cases (
        same_text row.projection_name letter.projection_name
        && row.sequence_number == letter.sequence_number)) [
          | inl y ↦ rw (y, y) refl
          | inr o ↦ rw (o, o, record_fatal_twice rows letter) refl
        ]

  inserted_twice :
      {X : Type 0} (fails : Bool) (rows : List (DeadLetter J)) (name : String)
      (event : ParsedEvent J) (e : ProjectionError X) (stored : Result J.Failure (StoredEvent J))
      → inserted false (inserted fails rows name event e stored) name event e stored
        ≡ inserted false rows name event e stored
  unfolding inserted
  inserted_twice fails rows name event e (err f) = refl
  inserted_twice true rows name event e (ok stored) = refl
  inserted_twice false rows name event e (ok stored) =
      record_fatal_twice rows (letter_of name event e stored)

  pub record_fatal_event_twice :
      {X : Type 0} (fails : Bool) (rows : List (DeadLetter J)) (name : String)
      (event : ParsedEvent J) (e : ProjectionError X)
      → record_fatal_event false (record_fatal_event fails rows name event e) name event e
        ≡ record_fatal_event false rows name event e
  unfolding record_fatal_event
  record_fatal_event_twice fails rows name event e =
      inserted_twice fails rows name event e (as_stored_event event)
