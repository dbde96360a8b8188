-- ===== src/Projections/EntityTables.antt =====
-- crates/projections/src/projection/dual/core_entities.rs: its statements on `term` and on the tables of
-- the `kg` database. Columns that are the same constant in every row, and the wall-clock `created_at` of
-- `kg.events`, are left out.
use Prim.Native.String.{String, ◌++◌ as text_append}
use intuition_core.Base.{
  ℕ, Bool, false, if◌then◌else◌, Option, none, some, Table, Eq, text_eq, pair_eq, insert_new,
}
use intuition_core.Events.{Serde, AtomCreatedRecord, TripleCreatedRecord}
use intuition_core.Events.Parsing.{EventMetadata}

-- The libraries' part of what is bound: hex and serde_json, chrono, and the conversions of the standard
-- library.
pub record Codecs (J : Serde) : Type 1 where
  pub Bytes : Type 0
  pub strip_prefix_0x : String → Option String
  pub hex_decode : String → Option Bytes
  pub from_utf8 : Bytes → Option String
  pub contains_nul : String → Bool
  pub number_to_string : ℕ → String
  pub to_rfc3339 : J.Time → String
  pub get_as_str : J.Value → String → Option String
  pub string : String → J.Value
  pub bool : Bool → J.Value

abbrev pub unwrap_or : Option String → String → String
unwrap_or none other = other
unwrap_or (some s) other = s

module _ {J : Serde} (C : Codecs J) where
  abbrev accepted : Option String → Option String
  accepted none = none
  accepted (some s) = if C.contains_nul s then none else some s

  abbrev as_text : Option C.Bytes → Option String
  as_text none = none
  as_text (some bytes) = accepted (C.from_utf8 bytes)

  unfoldable pub decode_atom_data_hex : String → Option String
  decode_atom_data_hex atom_data_hex =
      as_text (C.hex_decode (unwrap_or (C.strip_prefix_0x atom_data_hex) atom_data_hex))

pub record TermRow (Time : Type 0) : Type 0 where
  pub term_type : String
  pub creator : String
  pub atom_data : Option String
  pub atom_data_hex : Option String
  pub subject_id : Option String
  pub predicate_id : Option String
  pub object_id : Option String
  pub block_number : ℕ
  pub block_timestamp : Time
  pub transaction_hash : String

abbrev pub Term : Type 0 → Type 0
Term Time = Table String (TermRow Time)

pub record NodeRow (Time : Type 0) : Type 0 where
  pub created_by : String
  pub node_data : String
  pub data_hex : String
  pub created_at : Time

pub record PredicateRow : Type 0 where
  pub slug : String
  pub label : String

pub record TripleRow (Time : Type 0) : Type 0 where
  pub created_by : String
  pub subject_id : String
  pub predicate_id : String
  pub object_id : String
  pub sibling_triple_id : Option String
  pub is_counter_triple : Bool
  pub block_number : ℕ
  pub tx_hash : String
  pub created_at : Time

pub record KgEventRow : Type 0 where
  pub actor_id : String
  pub entity_kind : String
  pub entity_id : String
  pub block_number : ℕ
  pub tx_hash : String

pub record KgTables (Time : Type 0) : Type 0 where
  pub accounts : Table String (Unit {0})
  pub nodes : Table String (NodeRow Time)
  pub predicates : Table String PredicateRow
  pub triples : Table String (TripleRow Time)
  pub events : Table (Time × String) KgEventRow

module _ {J : Serde} ⦃t : Eq J.Time⦄ (C : Codecs J) where
  unfoldable pub insert_atom_term_pg_raw :
      Term J.Time → String → String → String → ℕ → J.Time → String → Term J.Time
  unfolding decode_atom_data_hex
  insert_atom_term_pg_raw term term_id creator atom_data_hex block_number block_timestamp
        transaction_hash =
      insert_new term term_id (record {
        term_type = "atom";
        creator = creator;
        atom_data = decode_atom_data_hex C atom_data_hex;
        atom_data_hex = some atom_data_hex;
        subject_id = none;
        predicate_id = none;
        object_id = none;
        block_number = block_number;
        block_timestamp = block_timestamp;
        transaction_hash = transaction_hash;
      })

  abbrev pub insert_atom_term_pg : Term J.Time → EventMetadata J → AtomCreatedRecord → Term J.Time
  insert_atom_term_pg term metadata d =
      insert_atom_term_pg_raw term d.term_id d.creator d.atom_data metadata.block_number
        metadata.block_timestamp metadata.transaction_hash

  unfoldable pub insert_triple_term_pg_raw :
      Term J.Time → String → String → String → String → String → ℕ → J.Time → String → Term J.Time
  insert_triple_term_pg_raw term term_id creator subject_id predicate_id object_id block_number
        block_timestamp transaction_hash =
      insert_new term term_id (record {
        term_type = "triple";
        creator = creator;
        atom_data = none;
        atom_data_hex = none;
        subject_id = some subject_id;
        predicate_id = some predicate_id;
        object_id = some object_id;
        block_number = block_number;
        block_timestamp = block_timestamp;
        transaction_hash = transaction_hash;
      })

  abbrev pub insert_triple_term_pg :
      Term J.Time → EventMetadata J → TripleCreatedRecord → Term J.Time
  insert_triple_term_pg term metadata d =
      insert_triple_term_pg_raw term d.term_id d.creator d.subject_id d.predicate_id d.object_id
        metadata.block_number metadata.block_timestamp metadata.transaction_hash

  unfoldable pub upsert_kg_account : KgTables J.Time → String → KgTables J.Time
  upsert_kg_account kg account_id = record kg { accounts = insert_new kg.accounts account_id tt }

  unfoldable pub insert_kg_node_atom :
      KgTables J.Time → String → String → String → String → J.Time → KgTables J.Time
  insert_kg_node_atom kg term_id creator atom_data atom_data_hex block_timestamp = record kg {
    nodes = insert_new kg.nodes term_id (record {
      created_by = creator;
      node_data = atom_data;
      data_hex = atom_data_hex;
      created_at = block_timestamp;
    });
  }

  -- `kind` is 'node' or 'triple'.
  unfoldable pub insert_kg_event_created :
      String → KgTables J.Time → String → String → ℕ → String → ℕ → J.Time → KgTables J.Time
  insert_kg_event_created kind kg creator entity_id block_number tx_hash log_index block_timestamp =
      record kg {
        events =
            insert_new kg.events
              (
                block_timestamp,
                text_append tx_hash (text_append ":" (C.number_to_string log_index)),
              )
              (record {
                actor_id = creator;
                entity_kind = kind;
                entity_id = entity_id;
                block_number = block_number;
                tx_hash = tx_hash;
              });
      }

  unfoldable pub upsert_kg_predicate_lazy : KgTables J.Time → String → KgTables J.Time
  upsert_kg_predicate_lazy kg predicate_id = record kg {
    predicates =
        insert_new kg.predicates predicate_id
          (record { slug = predicate_id; label = predicate_id });
  }

  unfoldable pub insert_kg_triple :
      KgTables J.Time
      → String
      → String
      → String
      → String
      → String
      → Bool
      → Option String
      → ℕ
      → String
      → J.Time
      → KgTables J.Time
  insert_kg_triple kg triple_id creator subject_id predicate_id object_id is_counter
        sibling_triple_id block_number tx_hash block_timestamp =
      record kg {
        triples = insert_new kg.triples triple_id (record {
          created_by = creator;
          subject_id = subject_id;
          predicate_id = predicate_id;
          object_id = object_id;
          sibling_triple_id = sibling_triple_id;
          is_counter_triple = is_counter;
          block_number = block_number;
          tx_hash = tx_hash;
          created_at = block_timestamp;
        });
      }

  unfoldable pub apply_atom_row :
      KgTables J.Time
      → String
      → String
      → String
      → String
      → ℕ
      → String
      → ℕ
      → J.Time
      → KgTables J.Time
  unfolding upsert_kg_account insert_kg_node_atom insert_kg_event_created
  apply_atom_row kg creator term_id atom_data atom_data_hex block_number tx_hash log_index
        block_timestamp =
      let accounted = upsert_kg_account kg creator in
      let noded =
        insert_kg_node_atom accounted term_id creator atom_data atom_data_hex block_timestamp in
      insert_kg_event_created "node" noded creator term_id block_number tx_hash log_index
        block_timestamp

  unfoldable pub apply_triple_row :
      KgTables J.Time
      → String
      → String
      → String
      → String
      → String
      → ℕ
      → String
      → ℕ
      → J.Time
      → KgTables J.Time
  unfolding upsert_kg_account upsert_kg_predicate_lazy insert_kg_triple insert_kg_event_created
  apply_triple_row kg creator triple_id subject_id predicate_id object_id block_number tx_hash
        log_index block_timestamp =
      let accounted = upsert_kg_account kg creator in
      let predicated = upsert_kg_predicate_lazy accounted predicate_id in
      let tripled =
        insert_kg_triple predicated triple_id creator subject_id predicate_id object_id false none
          block_number tx_hash block_timestamp in
      insert_kg_event_created "triple" tripled creator triple_id block_number tx_hash log_index
        block_timestamp
