-- ===== src/Projections/CoreEntities/Alike.antt =====
-- Events that crates/projections/src/projection/dual/core_entities.rs is to write alike: a payload that was
-- read, and one that was not but has the same fields.
use Prim.Native.String.{String}
use intuition_core.Base.{◌≡◌, refl, some, List, [], ◌∷◌, ok, text_eq, same_text_iff}
use intuition_core.Events.{
  Serde, StoredEvent, atom_created, triple_created, AtomCreatedRecord, TripleCreatedRecord,
}
use intuition_core.Events.Parsing.{ParsedEvent, typed, unknown, EventMetadata}
use intuition_core.Projections.EntityTables.{Codecs}
use intuition_core.Projections.EntityPlan.{
  atom_raw, triple_raw, get_str, per_event, build_atom_ops_raw, build_raw_triple_ops,
  datetime_value,
}

module _ {J : Serde} (C : Codecs J) where
  -- A field of the payload.
  abbrev pub Holds : StoredEvent J → String → String → Type 0
  Holds raw field text = C.get_as_str raw.event_data field ≡ some text

  pub record SameEnvelope (m : EventMetadata J) (raw : StoredEvent J) : Type 0 where
    pub block_number : raw.block_number ≡ m.block_number
    pub block_timestamp : raw.block_timestamp ≡ m.block_timestamp
    pub transaction_hash : raw.transaction_hash ≡ m.transaction_hash
    pub log_index : raw.log_index ≡ m.log_index

  pub record AtomFields (m : EventMetadata J) (d : AtomCreatedRecord) (raw : StoredEvent J)
      : Type 0 where
    pub envelope : SameEnvelope m raw
    pub kind : raw.event_type ≡ "AtomCreated"
    pub creator : Holds raw "creator" d.creator
    pub term_id : Holds raw "term_id" d.term_id
    pub atom_data : Holds raw "atom_data" d.atom_data

  pub record TripleFields (m : EventMetadata J) (d : TripleCreatedRecord) (raw : StoredEvent J)
      : Type 0 where
    pub envelope : SameEnvelope m raw
    pub kind : raw.event_type ≡ "TripleCreated"
    pub creator : Holds raw "creator" d.creator
    pub term_id : Holds raw "term_id" d.term_id
    pub subject_id : Holds raw "subject_id" d.subject_id
    pub predicate_id : Holds raw "predicate_id" d.predicate_id
    pub object_id : Holds raw "object_id" d.object_id

  -- The same event, or one read and one raw with the fields that are used.
  pub data IsAlike : ParsedEvent J → ParsedEvent J → Type 0 where
    itself : (event : ParsedEvent J) → IsAlike event event
    raw_atom :
        (m : EventMetadata J) (d : AtomCreatedRecord) (raw : StoredEvent J)
        → AtomFields m d raw
        → IsAlike (typed m atom_created d) (unknown raw)
    raw_triple :
        (m : EventMetadata J) (d : TripleCreatedRecord) (raw : StoredEvent J)
        → TripleFields m d raw
        → IsAlike (typed m triple_created d) (unknown raw)

  abbrev pub AreAlike : List (ParsedEvent J) → List (ParsedEvent J) → Type 0
  AreAlike [] [] = Unit
  AreAlike [] (f ∷ fs) = ⊥
  AreAlike (e ∷ es) [] = ⊥
  AreAlike (e ∷ es) (f ∷ fs) = IsAlike e f × AreAlike es fs

  module _ {X : Type 0} where
    pub per_event-unknown_atom :
        (m : EventMetadata J) (d : AtomCreatedRecord) (raw : StoredEvent J)
        → AtomFields m d raw
        → per_event {X = X} C (unknown raw)
          ≡ ok (
            build_atom_ops_raw C d.creator d.term_id d.atom_data
                (datetime_value C m.block_timestamp),
            atom_raw raw d.creator d.term_id d.atom_data ∷ [],
          )
    unfolding per_event get_str
    per_event-unknown_atom m d raw h =
        let y = (same_text_iff raw.event_type "AtomCreated").1 h.kind in
        rw (y, h.creator, h.term_id, h.atom_data, h.envelope.block_timestamp) refl

    pub per_event-unknown_triple :
        (m : EventMetadata J) (d : TripleCreatedRecord) (raw : StoredEvent J)
        → TripleFields m d raw
        → per_event {X = X} C (unknown raw)
          ≡ ok (
            build_raw_triple_ops C d.creator d.term_id d.subject_id d.predicate_id d.object_id
                (datetime_value C m.block_timestamp),
            triple_raw raw d.creator d.term_id d.subject_id d.predicate_id d.object_id ∷ [],
          )
    unfolding per_event get_str
    per_event-unknown_triple m d raw h =
        rw
          (
            h.kind, h.creator, h.term_id, h.subject_id, h.predicate_id, h.object_id,
            h.envelope.block_timestamp,
          )
          refl
