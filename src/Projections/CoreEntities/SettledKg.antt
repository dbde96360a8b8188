-- ===== src/Projections/CoreEntities/SettledKg.antt =====
-- A chain event that is in the tables of `kg` changes nothing there: the statements of
-- crates/projections/src/projection/dual/core_entities.rs, each with ON CONFLICT DO NOTHING.
use Prim.Native.String.{String, ◌++◌ as text_append}
use intuition_core.Base.{
  ℕ, ◌≡◌, refl, Eq, text_eq, pair_eq, HasKey, insert_new-HasKey, HasKey-insert_new,
  insert_new_known,
}
use intuition_core.Events.{Serde}
use intuition_core.Projections.EntityTables.{
  Codecs, KgTables, apply_atom_row, apply_triple_row, upsert_kg_account, insert_kg_node_atom,
  insert_kg_event_created, upsert_kg_predicate_lazy, insert_kg_triple,
}
use intuition_core.Projections.EntityPlan.{
  PgTermRow, atom, triple, atom_raw, triple_raw, apply_kg_row,
}
use intuition_core.Projections.CoreEntities.Settled.{AreInsertions}

module _ {J : Serde} ⦃t : Eq J.Time⦄ (C : Codecs J) where
  -- The key of an event in `kg.events`.
  abbrev event_key : J.Time → String → ℕ → J.Time × String
  event_key at tx_hash log_index =
      (at, text_append tx_hash (text_append ":" (C.number_to_string log_index)))

  pub record HasAtom (kg : KgTables J.Time) (creator term_id : String) (key : J.Time × String)
      : Type 0 where
    account : HasKey creator kg.accounts
    node : HasKey term_id kg.nodes
    event : HasKey key kg.events

  pub record HasTriple (kg : KgTables J.Time) (creator triple_id predicate_id : String)
      (key : J.Time × String) : Type 0 where
    account : HasKey creator kg.accounts
    predicate : HasKey predicate_id kg.predicates
    triple_row : HasKey triple_id kg.triples
    event : HasKey key kg.events

  abbrev pub InKg : PgTermRow J → KgTables J.Time → Type 0
  InKg (atom m d) kg =
      HasAtom kg d.creator d.term_id (event_key m.block_timestamp m.transaction_hash m.log_index)
  InKg (atom_raw raw creator term_id atom_data_hex) kg =
      HasAtom kg creator term_id (event_key raw.block_timestamp raw.transaction_hash raw.log_index)
  InKg (triple m d) kg =
      HasTriple kg d.creator d.term_id d.predicate_id
        (event_key m.block_timestamp m.transaction_hash m.log_index)
  InKg (triple_raw raw creator term_id subject_id predicate_id object_id) kg =
      HasTriple kg creator term_id predicate_id
        (event_key raw.block_timestamp raw.transaction_hash raw.log_index)

  -- No table loses a row.
  record Grows (before after : KgTables J.Time) : Type 0 where
    accounts : (k : String) → HasKey k before.accounts → HasKey k after.accounts
    nodes : (k : String) → HasKey k before.nodes → HasKey k after.nodes
    predicates : (k : String) → HasKey k before.predicates → HasKey k after.predicates
    triples : (k : String) → HasKey k before.triples → HasKey k after.triples
    events : (k : J.Time × String) → HasKey k before.events → HasKey k after.events

  apply_atom_row-Grows :
      (kg : KgTables J.Time) (creator term_id node_data node_hex : String) (n : ℕ) (tx : String)
      (l : ℕ) (at : J.Time)
      → Grows kg (apply_atom_row C kg creator term_id node_data node_hex n tx l at)
  unfolding apply_atom_row upsert_kg_account insert_kg_node_atom insert_kg_event_created
  apply_atom_row-Grows kg creator term_id node_data node_hex n tx l at = record {
    accounts = λ k h. HasKey-insert_new kg.accounts _ k _ h;
    nodes = λ k h. HasKey-insert_new kg.nodes _ k _ h;
    predicates = λ k h. h;
    triples = λ k h. h;
    events = λ k h. HasKey-insert_new kg.events _ k _ h;
  }

  apply_triple_row-Grows :
      (kg : KgTables J.Time) (creator triple_id subject_id predicate_id object_id : String) (n : ℕ)
      (tx : String) (l : ℕ) (at : J.Time)
      → Grows kg
          (apply_triple_row C kg creator triple_id subject_id predicate_id object_id n tx l at)
  unfolding apply_triple_row upsert_kg_account upsert_kg_predicate_lazy insert_kg_triple
      insert_kg_event_created
  apply_triple_row-Grows kg creator triple_id subject_id predicate_id object_id n tx l at = record {
    accounts = λ k h. HasKey-insert_new kg.accounts _ k _ h;
    nodes = λ k h. h;
    predicates = λ k h. HasKey-insert_new kg.predicates _ k _ h;
    triples = λ k h. HasKey-insert_new kg.triples _ k _ h;
    events = λ k h. HasKey-insert_new kg.events _ k _ h;
  }

  apply_kg_row-Grows : (kg : KgTables J.Time) (row : PgTermRow J) → Grows kg (apply_kg_row C kg row)
  unfolding apply_kg_row
  apply_kg_row-Grows kg (atom m d) = apply_atom_row-Grows kg _ _ _ _ _ _ _ _
  apply_kg_row-Grows kg (atom_raw raw creator term_id atom_data_hex) =
      apply_atom_row-Grows kg _ _ _ _ _ _ _ _
  apply_kg_row-Grows kg (triple m d) = apply_triple_row-Grows kg _ _ _ _ _ _ _ _ _
  apply_kg_row-Grows kg (triple_raw raw creator term_id subject_id predicate_id object_id) =
      apply_triple_row-Grows kg _ _ _ _ _ _ _ _ _

  HasAtom-Grows :
      {kg kg' : KgTables J.Time} {creator term_id : String} {key : J.Time × String}
      → Grows kg kg'
      → HasAtom kg creator term_id key
      → HasAtom kg' creator term_id key
  HasAtom-Grows g h = record {
    account = g.accounts _ h.account;
    node = g.nodes _ h.node;
    event = g.events _ h.event;
  }

  HasTriple-Grows :
      {kg kg' : KgTables J.Time} {creator triple_id predicate_id : String} {key : J.Time × String}
      → Grows kg kg'
      → HasTriple kg creator triple_id predicate_id key
      → HasTriple kg' creator triple_id predicate_id key
  HasTriple-Grows g h = record {
    account = g.accounts _ h.account;
    predicate = g.predicates _ h.predicate;
    triple_row = g.triples _ h.triple_row;
    event = g.events _ h.event;
  }

  apply_kg_row-stays :
      (kg : KgTables J.Time) (row other : PgTermRow J)
      → InKg row kg
      → InKg row (apply_kg_row C kg other)
  apply_kg_row-stays kg (atom m d) other h = HasAtom-Grows (apply_kg_row-Grows kg other) h
  apply_kg_row-stays kg (atom_raw raw creator term_id atom_data_hex) other h =
      HasAtom-Grows (apply_kg_row-Grows kg other) h
  apply_kg_row-stays kg (triple m d) other h = HasTriple-Grows (apply_kg_row-Grows kg other) h
  apply_kg_row-stays kg (triple_raw raw creator term_id subject_id predicate_id object_id) other h =
      HasTriple-Grows (apply_kg_row-Grows kg other) h

  apply_atom_row-HasAtom :
      (kg : KgTables J.Time) (creator term_id node_data node_hex : String) (n : ℕ) (tx : String)
      (l : ℕ) (at : J.Time)
      → HasAtom
          (apply_atom_row C kg creator term_id node_data node_hex n tx l at)
          creator
          term_id
          (event_key at tx l)
  unfolding apply_atom_row upsert_kg_account insert_kg_node_atom insert_kg_event_created
  apply_atom_row-HasAtom kg creator term_id node_data node_hex n tx l at = record {
    account = insert_new-HasKey kg.accounts _ _;
    node = insert_new-HasKey kg.nodes _ _;
    event = insert_new-HasKey kg.events _ _;
  }

  apply_triple_row-HasTriple :
      (kg : KgTables J.Time) (creator triple_id subject_id predicate_id object_id : String) (n : ℕ)
      (tx : String) (l : ℕ) (at : J.Time)
      → HasTriple
          (apply_triple_row C kg creator triple_id subject_id predicate_id object_id n tx l at)
          creator
          triple_id
          predicate_id
          (event_key at tx l)
  unfolding apply_triple_row upsert_kg_account upsert_kg_predicate_lazy insert_kg_triple
      insert_kg_event_created
  apply_triple_row-HasTriple kg creator triple_id subject_id predicate_id object_id n tx l at =
      record {
        account = insert_new-HasKey kg.accounts _ _;
        predicate = insert_new-HasKey kg.predicates _ _;
        triple_row = insert_new-HasKey kg.triples _ _;
        event = insert_new-HasKey kg.events _ _;
      }

  apply_kg_row-settles :
      (kg : KgTables J.Time) (row : PgTermRow J) → InKg row (apply_kg_row C kg row)
  unfolding apply_kg_row
  apply_kg_row-settles kg (atom m d) = apply_atom_row-HasAtom kg _ _ _ _ _ _ _ _
  apply_kg_row-settles kg (atom_raw raw creator term_id atom_data_hex) =
      apply_atom_row-HasAtom kg _ _ _ _ _ _ _ _
  apply_kg_row-settles kg (triple m d) = apply_triple_row-HasTriple kg _ _ _ _ _ _ _ _ _
  apply_kg_row-settles kg (triple_raw raw creator term_id subject_id predicate_id object_id) =
      apply_triple_row-HasTriple kg _ _ _ _ _ _ _ _ _

  apply_atom_row-known :
      (kg : KgTables J.Time) (creator term_id node_data node_hex : String) (n : ℕ) (tx : String)
      (l : ℕ) (at : J.Time)
      → HasAtom kg creator term_id (event_key at tx l)
      → apply_atom_row C kg creator term_id node_data node_hex n tx l at ≡ kg
  unfolding apply_atom_row upsert_kg_account insert_kg_node_atom insert_kg_event_created
  apply_atom_row-known kg creator term_id node_data node_hex n tx l at h =
      rw
        (
          insert_new_known kg.accounts _ _ h.account,
          insert_new_known kg.nodes _ _ h.node,
          insert_new_known kg.events _ _ h.event,
        )
        refl

  apply_triple_row-known :
      (kg : KgTables J.Time) (creator triple_id subject_id predicate_id object_id : String) (n : ℕ)
      (tx : String) (l : ℕ) (at : J.Time)
      → HasTriple kg creator triple_id predicate_id (event_key at tx l)
      → apply_triple_row C kg creator triple_id subject_id predicate_id object_id n tx l at ≡ kg
  unfolding apply_triple_row upsert_kg_account upsert_kg_predicate_lazy insert_kg_triple
      insert_kg_event_created
  apply_triple_row-known kg creator triple_id subject_id predicate_id object_id n tx l at h =
      rw
        (
          insert_new_known kg.accounts _ _ h.account,
          insert_new_known kg.predicates _ _ h.predicate,
          insert_new_known kg.triples _ _ h.triple_row,
          insert_new_known kg.events _ _ h.event,
        )
        refl

  apply_kg_row-known :
      (kg : KgTables J.Time) (row : PgTermRow J) → InKg row kg → apply_kg_row C kg row ≡ kg
  unfolding apply_kg_row
  apply_kg_row-known kg (atom m d) h = apply_atom_row-known kg _ _ _ _ _ _ _ _ h
  apply_kg_row-known kg (atom_raw raw creator term_id atom_data_hex) h =
      apply_atom_row-known kg _ _ _ _ _ _ _ _ h
  apply_kg_row-known kg (triple m d) h = apply_triple_row-known kg _ _ _ _ _ _ _ _ _ h
  apply_kg_row-known kg (triple_raw raw creator term_id subject_id predicate_id object_id) h =
      apply_triple_row-known kg _ _ _ _ _ _ _ _ _ h

  pub apply_kg_row-AreInsertions : AreInsertions (apply_kg_row C) InKg
  apply_kg_row-AreInsertions = record {
    settles = apply_kg_row-settles;
    stays = apply_kg_row-stays;
    known = apply_kg_row-known;
  }
