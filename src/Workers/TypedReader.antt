-- ===== src/Workers/TypedReader.antt =====
-- crates/projections/src/event/typed_reader.rs: events read from one table for each kind. The rows of a
-- table are in the order in which they were inserted.
pub mod Ordered
pub mod Union
use Prim.Native.String.{String}
use intuition_core.Base.{
  ℕ, ltb, leb, if◌then◌else◌, Bool, true, Option, none, some, List, [], ◌∷◌, ◌++◌, map, take,
  filter, Result, ok, err,
}
use intuition_core.Events.{
  EventType, atom_created, atom_context_registered, triple_created, deposited, redeemed,
  share_price_changed, protocol_fee_accrued, Payload, Serde, StoredEvent, UnknownEventType, as_str,
  from_str,
}

-- A row of the table of a kind of event.
pub record TypedRow (J : Serde) (t : EventType) : Type 0 where
  pub sequence_number : ℕ
  pub block_number : ℕ
  pub block_timestamp : J.Time
  pub block_hash : String
  pub transaction_hash : String
  pub log_index : ℕ
  pub columns : Payload J.Decimal t

-- The tables, and PostgreSQL's `jsonb_build_object` over the columns of each.
pub record TypedTables (J : Serde) : Type 0 where
  pub rows : (t : EventType) → List (TypedRow J t)
  pub jsonb_build_object : (t : EventType) → Payload J.Decimal t → J.Value

module _ (D : Type 0) where
  -- `term_id_hex AS term_id`.
  abbrev pub term_of : (t : EventType) → Payload D t → Option String
  term_of atom_created d = some d.term_id
  term_of atom_context_registered d = some d.term_id
  term_of triple_created d = some d.term_id
  term_of deposited d = some d.term_id
  term_of redeemed d = some d.term_id
  term_of share_price_changed d = some d.term_id
  term_of protocol_fee_accrued d = none

  -- `… AS entity_id`.
  abbrev pub entity_of : (t : EventType) → Payload D t → Option String
  entity_of atom_created d = none
  entity_of atom_context_registered d = none
  entity_of triple_created d = none
  entity_of deposited d = some d.receiver
  entity_of redeemed d = some d.receiver
  entity_of share_price_changed d = none
  entity_of protocol_fee_accrued d = some d.sender

-- What a fragment selects of a row.
unfoldable pub select : {J : Serde} → TypedTables J → (t : EventType) → TypedRow J t → StoredEvent J
select {J} T t row = record {
  sequence_number = row.sequence_number;
  block_number = row.block_number;
  block_timestamp = row.block_timestamp;
  block_hash = row.block_hash;
  transaction_hash = row.transaction_hash;
  log_index = row.log_index;
  event_type = as_str t;
  event_data = T.jsonb_build_object t row.columns;
  term_id = term_of J.Decimal t row.columns;
  entity_id = entity_of J.Decimal t row.columns;
  is_canonical = true;
  ingested_at = row.block_timestamp;
}

abbrev pub fragment_of : Result UnknownEventType EventType → Option EventType
fragment_of (ok t) = some t
fragment_of (err e) = none

-- Which table a name stands for.
unfoldable pub sql_fragment : String → Option EventType
unfolding from_str
sql_fragment event_type = fragment_of (from_str event_type)

abbrev pub known : Option EventType → List EventType → List EventType
known none ts = ts
known (some t) ts = t ∷ ts

-- `filter_map`.
unfoldable pub fragments : List String → List EventType
unfolding sql_fragment
fragments [] = []
fragments (name ∷ names) = known (sql_fragment name) (fragments names)

module _ {J : Serde} where
  abbrev pub key : StoredEvent J → ℕ
  key e = e.sequence_number

  -- `ORDER BY sequence_number ASC`.
  unfoldable pub insert_by : StoredEvent J → List (StoredEvent J) → List (StoredEvent J)
  insert_by e [] = e ∷ []
  insert_by e (f ∷ fs) =
      let rest = insert_by e fs in if leb (key e) (key f) then e ∷ f ∷ fs else f ∷ rest

  unfoldable pub order_by : List (StoredEvent J) → List (StoredEvent J)
  unfolding insert_by
  order_by [] = []
  order_by (e ∷ es) = insert_by e (order_by es)

  abbrev pub is_behind : ℕ → StoredEvent J → Bool
  is_behind after_sequence e = ltb after_sequence (key e)

  -- The rows of a fragment, `WHERE sequence_number > $1`.
  unfoldable pub rows_of : TypedTables J → ℕ → EventType → List (StoredEvent J)
  unfolding select
  rows_of T after_sequence t = filter (is_behind after_sequence) (map (select T t) (T.rows t))

  -- `(… ORDER BY … LIMIT $2)`, joined by `UNION ALL`.
  unfoldable pub union_all : TypedTables J → ℕ → ℕ → List EventType → List (StoredEvent J)
  unfolding rows_of order_by
  union_all T after_sequence batch_size [] = []
  union_all T after_sequence batch_size (t ∷ ts) =
      take batch_size (order_by (rows_of T after_sequence t))
      ++ union_all T after_sequence batch_size ts

  -- The answer to the query that `build_union_query` writes. Without a fragment it is no query: the
  -- database answers with an error, `none` here.
  unfoldable pub answer : TypedTables J → ℕ → ℕ → List EventType → Option (List (StoredEvent J))
  unfolding union_all rows_of order_by
  answer T after_sequence batch_size [] = none
  answer T after_sequence batch_size (t ∷ []) =
      some (take batch_size (order_by (rows_of T after_sequence t)))
  answer T after_sequence batch_size (t ∷ u ∷ ts) =
      some (take batch_size (order_by (union_all T after_sequence batch_size (t ∷ u ∷ ts))))

  unfoldable pub read_batch_multi :
      TypedTables J → List String → ℕ → ℕ → Option (List (StoredEvent J))
  unfolding answer fragments
  read_batch_multi T [] after_sequence batch_size = some []
  read_batch_multi T (name ∷ names) after_sequence batch_size =
      answer T after_sequence batch_size (fragments (name ∷ names))
