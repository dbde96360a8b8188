-- ===== src/Projections/Holders.antt =====
-- crates/projections/src/projection/dual/vault_holders_index.rs: who holds shares of a vault, in both
-- databases.
pub mod Positive
pub mod Counted
use Prim.Native.String.{String}
use intuition_core.Base.{ℕ, Option, none, some, List, Result, Eq}
use intuition_core.Errors.{ProjectionError}
use intuition_core.Events.{
  Serde, EventType, atom_created, atom_context_registered, triple_created, deposited, redeemed,
  share_price_changed, protocol_fee_accrued, DepositedRecord, RedeemedRecord,
}
use intuition_core.Events.Parsing.{EventMetadata, ParsedEvent, typed, unknown}
use intuition_core.Projections.Tables.{
  Externals, Positions, VaultKey, upsert_position_on_deposit, decrement_position_on_redeem,
  prune_zero_position,
}
use intuition_core.Projections.KgTables.{
  upsert_kg_position_on_deposit, decrement_kg_position_on_redeem, prune_zero_kg_positions,
}
use intuition_core.Projections.Batch.{
  Legacy, Kg, Databases, Writes, Faults, Handled, skipped, Outcome, process_batch,
}
use intuition_core.Projections.VaultState.{key_of, executed, touching, touch, refresh_touched}

module _ {J : Serde} ⦃t : Eq J.Time⦄ (E : Externals J) where
  -- The statements on the positions of one database.
  unfoldable pub deposit_position : DepositedRecord J.Decimal → Positions → Positions
  unfolding upsert_position_on_deposit
  deposit_position d positions =
      upsert_position_on_deposit positions (key_of E d.term_id d.curve_id) d.receiver
        (E.amount d.shares) (E.amount d.assets_after_fees)

  unfoldable pub redeem_position : RedeemedRecord J.Decimal → Positions → Positions
  unfolding decrement_position_on_redeem prune_zero_position
  redeem_position d positions =
      prune_zero_position
        (decrement_position_on_redeem positions (key_of E d.term_id d.curve_id) d.sender
          (E.amount d.shares) (E.amount d.assets))
        (key_of E d.term_id d.curve_id) d.sender

  abbrev pub deposit_kg_position : DepositedRecord J.Decimal → Positions → Positions
  deposit_kg_position d positions =
      upsert_kg_position_on_deposit positions (key_of E d.term_id d.curve_id) d.receiver
        (E.amount d.shares) (E.amount d.assets_after_fees)

  abbrev pub redeem_kg_position : RedeemedRecord J.Decimal → Positions → Positions
  redeem_kg_position d positions =
      prune_zero_kg_positions
        (decrement_kg_position_on_redeem positions (key_of E d.term_id d.curve_id) d.sender
          (E.amount d.shares) (E.amount d.assets))
        (key_of E d.term_id d.curve_id) d.sender

abbrev pub on_kg_positions :
    {Time : Type 0} → (Positions → Positions) → Option (Kg Time) → Option (Kg Time)
on_kg_positions change none = none
on_kg_positions change (some kg) = some (record kg { positions = change kg.positions })

-- The statements in `market`, then in the first database.
abbrev pub on_positions :
    {Time : Type 0} → (Positions → Positions) → (Positions → Positions) → Writes Time → Writes Time
on_positions change_kg change w = record w {
  kg = on_kg_positions change_kg w.kg;
  legacy = record w.legacy { positions = change w.legacy.positions };
}

module _ {J : Serde} ⦃t : Eq J.Time⦄ (E : Externals J) where
  unfoldable pub process_deposit_typed : Writes J.Time → DepositedRecord J.Decimal → Writes J.Time
  unfolding deposit_position upsert_position_on_deposit
  process_deposit_typed w d = on_positions (deposit_kg_position E d) (deposit_position E d) w

  unfoldable pub process_redeem_typed : Writes J.Time → RedeemedRecord J.Decimal → Writes J.Time
  unfolding redeem_position decrement_position_on_redeem prune_zero_position
  process_redeem_typed w d = on_positions (redeem_kg_position E d) (redeem_position E d) w

  unfoldable pub handle :
      {X : Type 0}
      → (ℕ → Option (ProjectionError X))
      → Writes J.Time
      → ParsedEvent J
      → Handled X (Writes J.Time)
  unfolding process_deposit_typed process_redeem_typed touch
  handle statement w (typed metadata deposited d) =
      executed (statement metadata.sequence_number)
        (process_deposit_typed (touching (key_of E d.term_id d.curve_id) w) d)
  handle statement w (typed metadata redeemed d) =
      executed (statement metadata.sequence_number)
        (process_redeem_typed (touching (key_of E d.term_id d.curve_id) w) d)
  handle statement w (typed metadata atom_created d) = skipped
  handle statement w (typed metadata atom_context_registered d) = skipped
  handle statement w (typed metadata triple_created d) = skipped
  handle statement w (typed metadata share_price_changed d) = skipped
  handle statement w (typed metadata protocol_fee_accrued d) = skipped
  handle statement w (unknown raw) = skipped

  unfoldable pub process_parsed_batch :
      {X : Type 0} → Faults X → Databases J → List (ParsedEvent J) → Outcome J X
  unfolding handle process_batch refresh_touched
  process_parsed_batch faults dbs events =
      process_batch "vault_holders_index:dual" faults dbs (handle faults.statement) refresh_touched
        events
