-- ===== src/Events/Parsing.antt =====
-- crates/shared/src/parsed_event.rs: a stored event with its `event_data` turned into the record of
-- its kind, or kept raw.
use Prim.Native.String.{String}
use intuition_core.Base.{ℕ, Bool, Option, none, some, Result, ok, err}
use intuition_core.Events.{
  EventType, Payload, Serde, StoredEvent, UnknownEventType, from_str, as_str,
}

pub record EventMetadata (J : Serde) : Type 0 where
  pub sequence_number : ℕ
  pub block_number : ℕ
  pub block_timestamp : J.Time
  pub block_hash : String
  pub transaction_hash : String
  pub log_index : ℕ
  pub event_type : String
  pub term_id : Option String
  pub entity_id : Option String
  pub is_canonical : Bool
  pub ingested_at : J.Time

unfoldable pub from_event : {J : Serde} → StoredEvent J → EventMetadata J
from_event event = record {
  sequence_number = event.sequence_number;
  block_number = event.block_number;
  block_timestamp = event.block_timestamp;
  block_hash = event.block_hash;
  transaction_hash = event.transaction_hash;
  log_index = event.log_index;
  event_type = event.event_type;
  term_id = event.term_id;
  entity_id = event.entity_id;
  is_canonical = event.is_canonical;
  ingested_at = event.ingested_at;
}

-- One variant for each kind of event, with the record of that kind, and `Unknown`.
pub data ParsedEvent (J : Serde) : Type 0 where
  typed : EventMetadata J → (t : EventType) → Payload J.Decimal t → ParsedEvent J
  unknown : StoredEvent J → ParsedEvent J

pub record ParseError (J : Serde) : Type 0 where
  pub event_type : String
  pub source : J.Failure

module _ {J : Serde} where
  parse_variant :
      EventMetadata J
      → (t : EventType) → Result J.Failure (Payload J.Decimal t)
      → Result (ParseError J) (ParsedEvent J)
  parse_variant metadata t (ok payload) = ok (typed metadata t payload)
  parse_variant metadata t (err source) = err (record { event_type = as_str t; source = source })

  parse_as :
      StoredEvent J → Result UnknownEventType EventType → Result (ParseError J) (ParsedEvent J)
  unfolding parse_variant
  parse_as event (ok t) = parse_variant (from_event event) t (J.from_value t event.event_data)
  parse_as event (err _) = ok (unknown event)

  unfoldable pub parse : StoredEvent J → Result (ParseError J) (ParsedEvent J)
  unfolding parse_as
  parse event = parse_as event (from_str event.event_type)

  fall_back :
      StoredEvent J → Result (ParseError J) (ParsedEvent J) → ParsedEvent J × Option (ParseError J)
  fall_back raw (ok parsed) = (parsed, none)
  fall_back raw (err e) = (unknown raw, some e)

  unfoldable pub parse_or_unknown : StoredEvent J → ParsedEvent J × Option (ParseError J)
  unfolding fall_back
  parse_or_unknown event = fall_back event (parse event)

  unfoldable pub event_type : ParsedEvent J → String
  event_type (typed metadata t payload) = metadata.event_type
  event_type (unknown e) = e.event_type

  unfoldable pub sequence_number : ParsedEvent J → ℕ
  sequence_number (typed metadata t payload) = metadata.sequence_number
  sequence_number (unknown e) = e.sequence_number

  unfoldable pub stored_event_from_parts : EventMetadata J → J.Value → StoredEvent J
  stored_event_from_parts metadata event_data = record {
    sequence_number = metadata.sequence_number;
    block_number = metadata.block_number;
    block_timestamp = metadata.block_timestamp;
    block_hash = metadata.block_hash;
    transaction_hash = metadata.transaction_hash;
    log_index = metadata.log_index;
    event_type = metadata.event_type;
    event_data = event_data;
    term_id = metadata.term_id;
    entity_id = metadata.entity_id;
    is_canonical = metadata.is_canonical;
    ingested_at = metadata.ingested_at;
  }

  reserialise : EventMetadata J → Result J.Failure J.Value → Result J.Failure (StoredEvent J)
  unfolding stored_event_from_parts
  reserialise metadata (ok payload) = ok (stored_event_from_parts metadata payload)
  reserialise metadata (err e) = err e

  unfoldable pub as_stored_event : ParsedEvent J → Result J.Failure (StoredEvent J)
  unfolding reserialise
  as_stored_event (typed metadata t payload) = reserialise metadata (J.to_value t payload)
  as_stored_event (unknown e) = ok e
