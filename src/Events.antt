-- ===== src/Events.antt =====
-- crates/shared/src/types.rs and models.rs: the kinds of events, the rows of the event store and the
-- records that their `event_data` holds. A big decimal, a time and a JSON value are given by `Serde`.
pub mod Parsing
pub mod Envelope
use Prim.Native.String.{String}
use intuition_core.Base.{ℕ, Bool, Option, List, Result, ok, err, same_text, if◌then◌else◌}

pub data EventType : Type 0 where
  atom_created atom_context_registered triple_created deposited redeemed : EventType
  share_price_changed protocol_fee_accrued : EventType

unfoldable pub as_str : EventType → String
as_str atom_created = "AtomCreated"
as_str atom_context_registered = "AtomContextRegistered"
as_str triple_created = "TripleCreated"
as_str deposited = "Deposited"
as_str redeemed = "Redeemed"
as_str share_price_changed = "SharePriceChanged"
as_str protocol_fee_accrued = "ProtocolFeeAccrued"

pub data UnknownEventType : Type 0 where
  unknown_event_type : String → UnknownEventType

unfoldable pub from_str : String → Result UnknownEventType EventType
from_str s =
    if same_text s "AtomCreated"
    then ok atom_created
    else if same_text s "AtomContextRegistered"
    then ok atom_context_registered
    else if same_text s "TripleCreated"
    then ok triple_created
    else if same_text s "Deposited"
    then ok deposited
    else if same_text s "Redeemed"
    then ok redeemed
    else if same_text s "SharePriceChanged"
    then ok share_price_changed
    else if same_text s "ProtocolFeeAccrued"
    then ok protocol_fee_accrued
    else err (unknown_event_type s)

pub record AtomCreatedRecord : Type 0 where
  pub creator : String
  pub term_id : String
  pub atom_data : String
  pub atom_wallet : String

pub record AtomContextRegisteredRecord : Type 0 where
  pub registrant : String
  pub term_id : String
  pub uris : List String

pub record TripleCreatedRecord : Type 0 where
  pub creator : String
  pub term_id : String
  pub subject_id : String
  pub predicate_id : String
  pub object_id : String

pub record DepositedRecord (D : Type 0) : Type 0 where
  pub sender : String
  pub receiver : String
  pub term_id : String
  pub curve_id : D
  pub assets : D
  pub assets_after_fees : D
  pub shares : D
  pub total_shares : D
  pub vault_type : ℕ

pub record RedeemedRecord (D : Type 0) : Type 0 where
  pub sender : String
  pub receiver : String
  pub term_id : String
  pub curve_id : D
  pub shares : D
  pub total_shares : D
  pub assets : D
  pub fees : D
  pub vault_type : ℕ

pub record SharePriceChangedRecord (D : Type 0) : Type 0 where
  pub term_id : String
  pub curve_id : D
  pub share_price : D
  pub total_assets : D
  pub total_shares : D
  pub vault_type : ℕ

pub record ProtocolFeeAccruedRecord (D : Type 0) : Type 0 where
  pub epoch : D
  pub amount : D
  pub sender : String

-- The record of each kind of event.
abbrev pub Payload : Type 0 → EventType → Type 0
Payload D atom_created = AtomCreatedRecord
Payload D atom_context_registered = AtomContextRegisteredRecord
Payload D triple_created = TripleCreatedRecord
Payload D deposited = DepositedRecord D
Payload D redeemed = RedeemedRecord D
Payload D share_price_changed = SharePriceChangedRecord D
Payload D protocol_fee_accrued = ProtocolFeeAccruedRecord D

-- The external types, and serde's derived conversions between a JSON value and each record.
pub record Serde : Type 1 where
  pub Value : Type 0
  pub Time : Type 0
  pub Decimal : Type 0
  pub Failure : Type 0
  pub from_value : (t : EventType) → Value → Result Failure (Payload Decimal t)
  pub to_value : (t : EventType) → Payload Decimal t → Result Failure Value

pub record StoredEvent (J : Serde) : Type 0 where
  pub sequence_number : ℕ
  pub block_number : ℕ
  pub block_timestamp : J.Time
  pub block_hash : String
  pub transaction_hash : String
  pub log_index : ℕ
  pub event_type : String
  pub event_data : J.Value
  pub term_id : Option String
  pub entity_id : Option String
  pub is_canonical : Bool
  pub ingested_at : J.Time
