-- ===== src/Projections/VaultState.antt =====
-- crates/projections/src/projection/dual/vault_state.rs: the state of the vaults in both databases.
pub mod Ledger
pub mod Entries
pub mod Totals
use Prim.Native.String.{String, ◌++◌ as text_append}
use intuition_core.Base.{
  ℕ, Bool, true, false, not, Option, none, some, List, [], ◌∷◌, Result, ok, err, ltb, ◌&&◌,
  if◌then◌else◌, ℤ, pos, Eq, pair_eq, text_eq, ◌||◌,
}
use intuition_core.Errors.{ProjectionError, invalid_event_data}
use intuition_core.Curves.Math as CurveMath
use intuition_core.Events.{
  Serde, EventType, atom_created, atom_context_registered, triple_created, deposited, redeemed,
  share_price_changed, protocol_fee_accrued, DepositedRecord, RedeemedRecord,
  SharePriceChangedRecord,
}
use intuition_core.Events.Parsing.{EventMetadata, ParsedEvent, typed, unknown}
use intuition_core.Connections.Shard.{belongs_to_shard}
use intuition_core.Projections.Tables.{
  Externals, Vault, Vaults, VaultKey, Positions, Price, price_of, upsert_vault_on_deposit,
  upsert_vault_on_redeem, update_vault_price, refresh_holder_count, insert_share_price_history,
  insert_kg_market_event_deposited, insert_kg_market_event_redeemed,
  insert_kg_market_event_share_price_changed,
}
use intuition_core.Projections.KgTables.{
  upsert_kg_vault_on_deposit, upsert_kg_vault_on_redeem, update_kg_vault_price,
}
use intuition_core.Projections.Batch.{
  Legacy, Kg, Databases, Writes, Faults, Handled, skipped, written, failed, Outcome, process_batch,
}

-- The set of the touched vaults.
abbrev pub is_touched : VaultKey → List VaultKey → Bool
is_touched key [] = false
is_touched key (k ∷ keys) = pair_eq.same key k || is_touched key keys

unfoldable pub touch : VaultKey → List VaultKey → List VaultKey
touch key keys = if is_touched key keys then keys else key ∷ keys

unfoldable pub refresh_all : {Time : Type 0} → Positions → List VaultKey → Vaults Time → Vaults Time
unfolding refresh_holder_count
refresh_all positions [] vaults = vaults
refresh_all positions (key ∷ keys) vaults =
    refresh_all positions keys (refresh_holder_count vaults positions key)

abbrev pub refresh_kg : {Time : Type 0} → List VaultKey → Option (Kg Time) → Option (Kg Time)
refresh_kg keys none = none
refresh_kg keys (some kg) = some (record kg { vaults = refresh_all kg.positions keys kg.vaults })

-- The loops over the touched vaults, behind the loop over the events.
unfoldable pub refresh_touched : {Time : Type 0} → Writes Time → Writes Time
unfolding refresh_all
refresh_touched w = record w {
  kg = refresh_kg w.touched w.kg;
  legacy = record w.legacy { vaults = refresh_all w.legacy.positions w.touched w.legacy.vaults };
}

pub record VaultStateDualProjection : Type 0 where
  pub hash : String → String → ℕ
  pub shard_id : ℕ
  pub total_shards : ℕ

-- A statement that fails ends the event; else it is written.
abbrev pub executed : {X W : Type 0} → Option (ProjectionError X) → W → Handled X W
executed none w = written w
executed (some e) w = failed e

abbrev pub touching : {Time : Type 0} → VaultKey → Writes Time → Writes Time
touching key w = record w { touched = touch key w.touched }

module _ {J : Serde} ⦃t : Eq J.Time⦄ (E : Externals J) where
  abbrev pub key_of : String → J.Decimal → VaultKey
  key_of term_id curve_id = (term_id, E.decimal_to_string curve_id)

  abbrev kg_deposited :
      J.Time → EventMetadata J → DepositedRecord J.Decimal → Option (Kg J.Time) → Option (Kg J.Time)
  kg_deposited now metadata d none = none
  kg_deposited now metadata d (some kg) = some (record kg {
    vaults =
        upsert_kg_vault_on_deposit now kg.vaults (key_of d.term_id d.curve_id)
          (E.amount d.assets_after_fees) metadata.block_timestamp;
    events = insert_kg_market_event_deposited E kg.events metadata d;
  })

  unfoldable pub process_deposited_typed :
      J.Time → Writes J.Time → EventMetadata J → DepositedRecord J.Decimal → Writes J.Time
  unfolding upsert_vault_on_deposit insert_kg_market_event_deposited
  process_deposited_typed now w metadata d = record w {
    kg = kg_deposited now metadata d w.kg;
    legacy = record w.legacy {
      vaults =
          upsert_vault_on_deposit now w.legacy.vaults (key_of d.term_id d.curve_id)
            (E.amount d.assets_after_fees) metadata.block_timestamp;
    };
  }

  abbrev kg_redeemed :
      J.Time → EventMetadata J → RedeemedRecord J.Decimal → Option (Kg J.Time) → Option (Kg J.Time)
  kg_redeemed now metadata d none = none
  kg_redeemed now metadata d (some kg) = some (record kg {
    vaults =
        upsert_kg_vault_on_redeem now kg.vaults (key_of d.term_id d.curve_id) (E.amount d.assets)
          metadata.block_timestamp;
    events = insert_kg_market_event_redeemed E kg.events metadata d;
  })

  unfoldable pub process_redeemed_typed :
      J.Time → Writes J.Time → EventMetadata J → RedeemedRecord J.Decimal → Writes J.Time
  unfolding upsert_vault_on_redeem insert_kg_market_event_redeemed
  process_redeemed_typed now w metadata d = record w {
    kg = kg_redeemed now metadata d w.kg;
    legacy = record w.legacy {
      vaults =
          upsert_vault_on_redeem now w.legacy.vaults (key_of d.term_id d.curve_id)
            (E.amount d.assets) metadata.block_timestamp;
    };
  }

  abbrev kg_priced :
      J.Time
      → EventMetadata J
      → SharePriceChangedRecord J.Decimal
      → ℤ
      → Option (Kg J.Time)
      → Option (Kg J.Time)
  kg_priced now metadata d market_cap none = none
  kg_priced now metadata d market_cap (some kg) = some (record kg {
    vaults =
        update_kg_vault_price now kg.vaults (key_of d.term_id d.curve_id) (price_of E d market_cap)
          metadata.block_timestamp;
    events = insert_kg_market_event_share_price_changed E kg.events metadata d;
  })

  -- `"{tx_hash}-{log_index}-SharePriceChanged"`.
  abbrev price_event_id : EventMetadata J → String
  price_event_id metadata =
      text_append metadata.transaction_hash
        (text_append "-" (text_append (E.number_to_string metadata.log_index) "-SharePriceChanged"))

  -- With the market capitalisation computed.
  unfoldable pub write_price :
      J.Time
      → Writes J.Time
      → EventMetadata J
      → SharePriceChangedRecord J.Decimal
      → ℤ
      → Writes J.Time
  unfolding update_vault_price insert_kg_market_event_share_price_changed insert_share_price_history
  write_price now w metadata d market_cap = record w {
    kg = kg_priced now metadata d market_cap w.kg;
    legacy = record w.legacy {
      vaults =
          update_vault_price now w.legacy.vaults (key_of d.term_id d.curve_id)
            (price_of E d market_cap) metadata.block_timestamp;
      history =
          insert_share_price_history E w.legacy.history (price_event_id metadata)
            (key_of d.term_id d.curve_id) (price_of E d market_cap) metadata;
    };
  }

  unfoldable pub should_skip_shard : VaultStateDualProjection → String → J.Decimal → Bool
  unfolding belongs_to_shard
  should_skip_shard self term_id curve_id =
      ltb 1 self.total_shards
      && not (
          belongs_to_shard self.hash term_id (E.canonical_shard_key curve_id) self.shard_id
            self.total_shards)

module _ {J : Serde} {X : Type 0} ⦃t : Eq J.Time⦄ (E : Externals J) where
  -- `none` is text that is no 256-bit word.
  parse_word : Option ℕ → Result (ProjectionError X) ℕ
  parse_word none = err (invalid_event_data "not a valid uint256")
  parse_word (some n) = ok n

  capitalise : CurveMath.Checked ℕ → Result (ProjectionError X) ℤ
  capitalise (ok n) = ok (pos n)
  capitalise (err e) = err (invalid_event_data "market_cap overflow")

  capitalisation :
      Result (ProjectionError X) ℕ → Result (ProjectionError X) ℕ → Result (ProjectionError X) ℤ
  unfolding capitalise CurveMath.market_cap
  capitalisation (err e) share_price = err e
  capitalisation (ok total_shares) (err e) = err e
  capitalisation (ok total_shares) (ok share_price) =
      capitalise (CurveMath.market_cap total_shares share_price)

  -- crates/projections/src/projection/mod.rs.
  unfoldable pub compute_market_cap : String → String → Result (ProjectionError X) ℤ
  unfolding parse_word capitalisation
  compute_market_cap total_shares_raw share_price_raw =
      capitalisation (parse_word (E.u256_from_str total_shares_raw))
        (parse_word (E.u256_from_str share_price_raw))

  process_share_price_changed_typed :
      J.Time
      → Option (ProjectionError X)
      → Writes J.Time
      → EventMetadata J
      → SharePriceChangedRecord J.Decimal
      → Result (ProjectionError X) ℤ
      → Handled X (Writes J.Time)
  unfolding write_price
  process_share_price_changed_typed now fault w metadata d (err e) = failed e
  process_share_price_changed_typed now fault w metadata d (ok market_cap) =
      executed fault (write_price E now w metadata d market_cap)

  -- The body of the loop over the events.
  unfoldable pub handle :
      VaultStateDualProjection
      → J.Time
      → (ℕ → Option (ProjectionError X))
      → Writes J.Time
      → ParsedEvent J
      → Handled X (Writes J.Time)
  unfolding should_skip_shard process_deposited_typed process_redeemed_typed
      process_share_price_changed_typed touch compute_market_cap
  handle self now statement w (typed metadata deposited d) =
      if should_skip_shard E self d.term_id d.curve_id
      then skipped
      else executed (statement metadata.sequence_number)
          (process_deposited_typed E now (touching (key_of E d.term_id d.curve_id) w) metadata d)
  handle self now statement w (typed metadata redeemed d) =
      if should_skip_shard E self d.term_id d.curve_id
      then skipped
      else executed (statement metadata.sequence_number)
          (process_redeemed_typed E now (touching (key_of E d.term_id d.curve_id) w) metadata d)
  handle self now statement w (typed metadata share_price_changed d) =
      if should_skip_shard E self d.term_id d.curve_id
      then skipped
      else process_share_price_changed_typed now (statement metadata.sequence_number) w metadata d (
          compute_market_cap (E.decimal_to_string d.total_shares)
            (E.decimal_to_string d.share_price))
  handle self now statement w (typed metadata atom_created d) = skipped
  handle self now statement w (typed metadata atom_context_registered d) = skipped
  handle self now statement w (typed metadata triple_created d) = skipped
  handle self now statement w (typed metadata protocol_fee_accrued d) = skipped
  handle self now statement w (unknown raw) = skipped

  unfoldable pub process_parsed_batch :
      VaultStateDualProjection
      → J.Time
      → Faults X
      → Databases J
      → List (ParsedEvent J)
      → Outcome J X
  unfolding handle process_batch refresh_touched
  process_parsed_batch self now faults dbs events =
      process_batch "vault_state:dual" faults dbs (handle self now faults.statement) refresh_touched
        events
