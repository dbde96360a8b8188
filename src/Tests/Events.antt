-- ===== src/Tests/Events.antt =====
-- Events of a store whose JSON values are numbers: a deposit that parses, one that does not, and one of
-- an unknown kind.
use Prim.Native.String.{String}
use intuition_core.Base.{◌+◌, ℕ, zero, suc, ◌≡◌, true, none, [], Result, ok, err}
use intuition_core.Events.{
  EventType, atom_created, deposited, protocol_fee_accrued, Payload, Serde, StoredEvent,
}
use intuition_core.Events.Parsing.{parse_or_unknown, sequence_number, event_type, as_stored_event}
use intuition_core.Events.Envelope.{
  Parsed, GivesBack, parse_or_unknown-Parsed, parse_or_unknown-keeps,
}

-- A record is read from any value but 0; every record is written as 1.
abbrev pub payload_of : (t : EventType) → Payload ℕ t
payload_of atom_created = record {
  creator = "a";
  term_id = "0x01";
  atom_data = "d";
  atom_wallet = "w";
}
payload_of EventType.atom_context_registered = record {
  registrant = "a";
  term_id = "0x01";
  uris = [];
}
payload_of EventType.triple_created = record {
  creator = "a";
  term_id = "0x02";
  subject_id = "s";
  predicate_id = "p";
  object_id = "o";
}
payload_of deposited = record {
  sender = "a";
  receiver = "b";
  term_id = "0x01";
  curve_id = 1;
  assets = 10;
  assets_after_fees = 9;
  shares = 5;
  total_shares = 5;
  vault_type = 0;
}
payload_of EventType.redeemed = record {
  sender = "a";
  receiver = "b";
  term_id = "0x01";
  curve_id = 1;
  shares = 5;
  total_shares = 0;
  assets = 9;
  fees = 0;
  vault_type = 0;
}
payload_of EventType.share_price_changed = record {
  term_id = "0x01";
  curve_id = 1;
  share_price = 2;
  total_assets = 10;
  total_shares = 5;
  vault_type = 0;
}
payload_of protocol_fee_accrued = record { epoch = 1; amount = 2; sender = "a" }

abbrev read : (t : EventType) → ℕ → Result String (Payload ℕ t)
read t zero = err "malformed"
read t (suc n) = ok (payload_of t)

abbrev pub json : Serde
json = record {
  Value = ℕ;
  Time = ℕ;
  Decimal = ℕ;
  Failure = String;
  from_value = read;
  to_value = λ t d. ok 1;
}

abbrev pub event : ℕ → String → ℕ → StoredEvent json
event n kind value = record {
  sequence_number = n;
  block_number = 100 + n;
  block_timestamp = 0;
  block_hash = "0xb";
  transaction_hash = "0xt";
  log_index = 0;
  event_type = kind;
  event_data = value;
  term_id = none;
  entity_id = none;
  is_canonical = true;
  ingested_at = 0;
}

parse_or_unknown-Parsed_example :
    Parsed (event 7 "Deposited" 0) (parse_or_unknown (event 7 "Deposited" 0))
parse_or_unknown-Parsed_example = parse_or_unknown-Parsed (event 7 "Deposited" 0)

parse_or_unknown-keeps_example :
    (sequence_number (parse_or_unknown (event 7 "Deposited" 3)).0 ≡ 7)
    × (event_type (parse_or_unknown (event 7 "Deposited" 3)).0 ≡ "Deposited")
    × ((s : StoredEvent json)
        → as_stored_event (parse_or_unknown (event 7 "Deposited" 3)).0 ≡ ok s
        → GivesBack (event 7 "Deposited" 3) (parse_or_unknown (event 7 "Deposited" 3)).0 s)
parse_or_unknown-keeps_example = parse_or_unknown-keeps (event 7 "Deposited" 3)
