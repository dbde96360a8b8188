-- ===== src/Projections/EntityPlan.antt =====
-- The planner of crates/projections/src/projection/dual/core_entities.rs: the operations for SurrealDB and
-- the rows for PostgreSQL that a batch asks for; with build_raw_triple_ops of projection/surreal/triple.rs
-- and the helpers of projection/mod.rs.
use Prim.Native.String.{String, ◌++◌ as text_append}
use intuition_core.Base.{
  true, Option, none, some, List, [], ◌∷◌, ◌++◌, Result, ok, err, ◌>>=◌, if◌then◌else◌, same_text,
  Eq,
}
use intuition_core.Errors.{ProjectionError, missing_field}
use intuition_core.Events.{
  Serde, atom_created, atom_context_registered, triple_created, deposited, redeemed,
  share_price_changed, protocol_fee_accrued, AtomCreatedRecord, TripleCreatedRecord, StoredEvent,
}
use intuition_core.Events.Parsing.{EventMetadata, ParsedEvent, typed, unknown}
use intuition_core.Workers.Sink.{RecordId, SinkOperation, upsert_node, reconcile_triple_draft}
use intuition_core.Projections.EntityTables.{
  Codecs, unwrap_or, decode_atom_data_hex, Term, KgTables, insert_atom_term_pg,
  insert_triple_term_pg, insert_atom_term_pg_raw, insert_triple_term_pg_raw, apply_atom_row,
  apply_triple_row,
}

pub data PgTermRow (J : Serde) : Type 0 where
  atom : EventMetadata J → AtomCreatedRecord → PgTermRow J
  triple : EventMetadata J → TripleCreatedRecord → PgTermRow J
  atom_raw : StoredEvent J → String → String → String → PgTermRow J
  triple_raw : StoredEvent J → String → String → String → String → String → PgTermRow J

module _ {J : Serde} (C : Codecs J) where
  abbrev found : {X : Type 0} → String → Option String → Result (ProjectionError X) String
  found field none = err (missing_field field)
  found field (some s) = ok s

  -- crates/projections/src/projection/mod.rs.
  unfoldable pub get_str : {X : Type 0} → J.Value → String → Result (ProjectionError X) String
  get_str value field = found field (C.get_as_str value field)

  -- crates/projections/src/projection/mod.rs.
  abbrev pub datetime_value : J.Time → J.Value
  datetime_value ts = C.string (text_append "datetime:" (C.to_rfc3339 ts))

  abbrev pub record_id : String → String → RecordId
  record_id table id = record { table = table; id = id }

  -- The account of the creator and the vault of the term.
  abbrev pub account_op : String → J.Value → SinkOperation J
  account_op creator ts =
      upsert_node (record_id "account" creator)
        (("address", C.string creator) ∷ ("onchain", C.bool true) ∷ ("updatedAt", ts) ∷ [])

  abbrev pub vault_op : String → String → J.Value → SinkOperation J
  vault_op creator term_id ts =
      upsert_node (record_id "vault" term_id)
        (("createdBy", C.string creator) ∷ ("onchain", C.bool true) ∷ ("updatedAt", ts) ∷ [])

  unfoldable pub build_atom_ops_raw : String → String → String → J.Value → List (SinkOperation J)
  unfolding decode_atom_data_hex
  build_atom_ops_raw creator term_id atom_data_hex ts =
      account_op creator ts
      ∷ vault_op creator term_id ts
      ∷ upsert_node (record_id "atom" term_id) (
          ("data", C.string (unwrap_or (decode_atom_data_hex C atom_data_hex) atom_data_hex))
          ∷ ("dataHex", C.string atom_data_hex)
          ∷ ("createdBy", C.string creator)
          ∷ ("type", C.string "default")
          ∷ ("onchain", C.bool true)
          ∷ ("updatedAt", ts)
          ∷ ("vault", C.string term_id)
          ∷ [])
      ∷ []

  abbrev pub build_atom_ops_typed : EventMetadata J → AtomCreatedRecord → List (SinkOperation J)
  build_atom_ops_typed metadata d =
      build_atom_ops_raw d.creator d.term_id d.atom_data (datetime_value metadata.block_timestamp)

  -- crates/projections/src/projection/surreal/triple.rs.
  unfoldable pub build_raw_triple_ops :
      String → String → String → String → String → J.Value → List (SinkOperation J)
  build_raw_triple_ops creator term_id subject_id predicate_id object_id ts =
      account_op creator ts
      ∷ vault_op creator term_id ts
      ∷ reconcile_triple_draft (record_id "triple" term_id) subject_id predicate_id object_id (
          ("subject", C.string subject_id)
          ∷ ("predicate", C.string predicate_id)
          ∷ ("object", C.string object_id)
          ∷ ("createdBy", C.string creator)
          ∷ ("onchain", C.bool true)
          ∷ ("updatedAt", ts)
          ∷ ("vault", C.string term_id)
          ∷ [])
      ∷ []

  abbrev pub build_triple_ops_typed : EventMetadata J → TripleCreatedRecord → List (SinkOperation J)
  build_triple_ops_typed metadata d =
      build_raw_triple_ops d.creator d.term_id d.subject_id d.predicate_id d.object_id
        (datetime_value metadata.block_timestamp)

-- The two buffers.
abbrev pub WritePlan : Serde → Type 0
WritePlan J = List (SinkOperation J) × List (PgTermRow J)

-- The buffers, or the error and the event that it came from, which stands in place of its index.
abbrev pub Planned : Serde → Type 0 → Type 0
Planned J X = Result (ParsedEvent J × ProjectionError X) (WritePlan J)

module _ {J : Serde} {X : Type 0} where
  abbrev pub and_rest : WritePlan J → Planned J X → Planned J X
  and_rest plan (err e) = err e
  and_rest (ops, rows) (ok (more_ops, more_rows)) = ok (ops ++ more_ops, rows ++ more_rows)

  abbrev pub with_event :
      ParsedEvent J → Result (ProjectionError X) (WritePlan J) → Planned J X → Planned J X
  with_event event (err e) rest = err (event, e)
  with_event event (ok plan) rest = and_rest plan rest

module _ {J : Serde} {X : Type 0} (C : Codecs J) where
  abbrev atom_fallback : StoredEvent J → Result (ProjectionError X) (WritePlan J)
  atom_fallback raw = get_str C raw.event_data "creator" >>= λ creator.
      get_str C raw.event_data "term_id" >>= λ term_id.
      get_str C raw.event_data "atom_data" >>= λ atom_data_hex. ok (
        build_atom_ops_raw C creator term_id atom_data_hex (datetime_value C raw.block_timestamp),
        atom_raw raw creator term_id atom_data_hex ∷ [],
      )

  abbrev triple_fallback : StoredEvent J → Result (ProjectionError X) (WritePlan J)
  triple_fallback raw = get_str C raw.event_data "creator" >>= λ creator.
      get_str C raw.event_data "term_id" >>= λ term_id.
      get_str C raw.event_data "subject_id" >>= λ subject_id.
      get_str C raw.event_data "predicate_id" >>= λ predicate_id.
      get_str C raw.event_data "object_id" >>= λ object_id. ok (
        build_raw_triple_ops C creator term_id subject_id predicate_id object_id
            (datetime_value C raw.block_timestamp),
        triple_raw raw creator term_id subject_id predicate_id object_id ∷ [],
      )

  -- The closure `per_event`: what an event adds to the buffers.
  unfoldable pub per_event : ParsedEvent J → Result (ProjectionError X) (WritePlan J)
  unfolding build_atom_ops_raw build_raw_triple_ops get_str
  per_event (typed metadata atom_created d) =
      ok (build_atom_ops_typed C metadata d, atom metadata d ∷ [])
  per_event (typed metadata triple_created d) =
      ok (build_triple_ops_typed C metadata d, triple metadata d ∷ [])
  per_event (typed metadata atom_context_registered d) = ok ([], [])
  per_event (typed metadata deposited d) = ok ([], [])
  per_event (typed metadata redeemed d) = ok ([], [])
  per_event (typed metadata share_price_changed d) = ok ([], [])
  per_event (typed metadata protocol_fee_accrued d) = ok ([], [])
  per_event (unknown raw) =
      if same_text raw.event_type "AtomCreated"
      then atom_fallback raw
      else if same_text raw.event_type "TripleCreated"
      then triple_fallback raw
      else ok ([], [])

  unfoldable pub build_write_plan : List (ParsedEvent J) → Planned J X
  unfolding per_event
  build_write_plan [] = ok ([], [])
  build_write_plan (event ∷ events) = with_event event (per_event event) (build_write_plan events)

module _ {J : Serde} ⦃t : Eq J.Time⦄ (C : Codecs J) where
  -- The body of the loop of `commit_pg_transaction`.
  unfoldable pub insert_term_row : Term J.Time → PgTermRow J → Term J.Time
  unfolding insert_atom_term_pg_raw insert_triple_term_pg_raw
  insert_term_row term (atom metadata d) = insert_atom_term_pg C term metadata d
  insert_term_row term (triple metadata d) = insert_triple_term_pg C term metadata d
  insert_term_row term (atom_raw raw creator term_id atom_data_hex) =
      insert_atom_term_pg_raw C term term_id creator atom_data_hex raw.block_number
        raw.block_timestamp raw.transaction_hash
  insert_term_row term (triple_raw raw creator term_id subject_id predicate_id object_id) =
      insert_triple_term_pg_raw C term term_id creator subject_id predicate_id object_id
        raw.block_number raw.block_timestamp raw.transaction_hash

  -- The body of the loop of `write_kg_batch`.
  unfoldable pub apply_kg_row : KgTables J.Time → PgTermRow J → KgTables J.Time
  unfolding apply_atom_row apply_triple_row decode_atom_data_hex
  apply_kg_row kg (atom metadata d) =
      apply_atom_row C kg d.creator d.term_id
        (unwrap_or (decode_atom_data_hex C d.atom_data) d.atom_data) d.atom_data
        metadata.block_number metadata.transaction_hash metadata.log_index metadata.block_timestamp
  apply_kg_row kg (atom_raw raw creator term_id atom_data_hex) =
      apply_atom_row C kg creator term_id
        (unwrap_or (decode_atom_data_hex C atom_data_hex) atom_data_hex) atom_data_hex
        raw.block_number raw.transaction_hash raw.log_index raw.block_timestamp
  apply_kg_row kg (triple metadata d) =
      apply_triple_row C kg d.creator d.term_id d.subject_id d.predicate_id d.object_id
        metadata.block_number metadata.transaction_hash metadata.log_index metadata.block_timestamp
  apply_kg_row kg (triple_raw raw creator term_id subject_id predicate_id object_id) =
      apply_triple_row C kg creator term_id subject_id predicate_id object_id raw.block_number
        raw.transaction_hash raw.log_index raw.block_timestamp

abbrev pub each_row : {S R : Type 0} → (S → R → S) → S → List R → S
each_row write s [] = s
each_row write s (row ∷ rows) = each_row write (write s row) rows
