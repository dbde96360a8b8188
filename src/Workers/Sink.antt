-- ===== src/Workers/Sink.antt =====
-- crates/projections/src/sink/mod.rs and repo/dead_letter_repo.rs: the operations a sink applies, and
-- the table of the events that a projection could not handle.
pub mod Letters
use Prim.Native.String.{String}
use intuition_core.Base.{
  ℕ, ◌≡◌, ◌⊎◌, refl, inl, inr, arith, Bool-cases, same_text_iff, ◌==◌, ◌&&◌, if◌then◌else◌, Bool,
  true, false, Option, List, [], ◌∷◌, Result, ok, err, same_text,
}
use intuition_core.Errors.{ErrorClass, ProjectionError, classify}
use intuition_core.Events.{Serde, StoredEvent}
use intuition_core.Events.Parsing.{ParsedEvent, as_stored_event, event_type}

pub record RecordId : Type 0 where
  pub table : String
  pub id : String

-- A `HashMap<String, Value>`.
abbrev pub FieldMap : Serde → Type 0
FieldMap J = List (String × J.Value)

pub data SinkOperation (J : Serde) : Type 0 where
  upsert_node : RecordId → FieldMap J → SinkOperation J
  upsert_edge : RecordId → String → RecordId → Option String → FieldMap J → SinkOperation J
  increment_fields : RecordId → FieldMap J → SinkOperation J
  reconcile_triple_draft : RecordId → String → String → String → FieldMap J → SinkOperation J

pub record DeadLetter (J : Serde) : Type 0 where
  pub projection_name : String
  pub sequence_number : ℕ
  pub event_type : String
  pub error_class : ErrorClass
  pub event_data : J.Value
  pub block_number : ℕ
  pub log_index : ℕ
  pub tx_hash : String

module _ {J : Serde} where
  -- `INSERT … ON CONFLICT (projection_name, sequence_number) DO NOTHING`.
  unfoldable pub record_fatal : List (DeadLetter J) → DeadLetter J → List (DeadLetter J)
  record_fatal [] letter = letter ∷ []
  record_fatal (row ∷ rows) letter =
      let rest = record_fatal rows letter in
      if same_text row.projection_name letter.projection_name
        && row.sequence_number == letter.sequence_number
      then row ∷ rows
      else row ∷ rest

  abbrev pub letter_of :
      {X : Type 0} → String → ParsedEvent J → ProjectionError X → StoredEvent J → DeadLetter J
  letter_of projection_name event e stored = record {
    projection_name = projection_name;
    sequence_number = stored.sequence_number;
    event_type = event_type event;
    error_class = classify e;
    event_data = stored.event_data;
    block_number = stored.block_number;
    log_index = stored.log_index;
    tx_hash = stored.transaction_hash;
  }

  pub inserted :
      {X : Type 0}
      → Bool
      → List (DeadLetter J)
      → String
      → ParsedEvent J
      → ProjectionError X
      → Result J.Failure (StoredEvent J)
      → List (DeadLetter J)
  unfolding record_fatal
  inserted insert_fails rows projection_name event e (err _) = rows
  inserted true rows projection_name event e (ok stored) = rows
  inserted false rows projection_name event e (ok stored) =
      record_fatal rows (letter_of projection_name event e stored)

  -- Without the event's stored form, or where the insertion fails, nothing is written and no error is
  -- raised.
  unfoldable pub record_fatal_event :
      {X : Type 0}
      → Bool
      → List (DeadLetter J)
      → String
      → ParsedEvent J
      → ProjectionError X
      → List (DeadLetter J)
  unfolding inserted
  record_fatal_event insert_fails rows projection_name event e =
      inserted insert_fails rows projection_name event e (as_stored_event event)
