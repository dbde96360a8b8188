-- ===== src/Projections/KgTables.antt =====
-- crates/projections/src/repo/kg_market_repo.rs on `market.vaults` and `market.active_vault_position`: the
-- statements of vault_repo.rs, word for word but for the names of the tables
-- (`refresh_kg_holder_count` too, which the loop of Projections/VaultState has for both databases).
use intuition_core.Base.{ℤ}
use intuition_core.Projections.Tables.{
  Vaults, VaultKey, Price, Positions, upsert_vault_on_deposit, upsert_vault_on_redeem,
  update_vault_price, upsert_position_on_deposit, decrement_position_on_redeem, prune_zero_position,
}
use Prim.Native.String.{String}

module _ {Time : Type 0} (now : Time) where
  abbrev pub upsert_kg_vault_on_deposit : Vaults Time → VaultKey → ℤ → Time → Vaults Time
  upsert_kg_vault_on_deposit vaults key assets_after_fees block_timestamp =
      upsert_vault_on_deposit now vaults key assets_after_fees block_timestamp

  abbrev pub upsert_kg_vault_on_redeem : Vaults Time → VaultKey → ℤ → Time → Vaults Time
  upsert_kg_vault_on_redeem vaults key assets block_timestamp =
      upsert_vault_on_redeem now vaults key assets block_timestamp

  abbrev pub update_kg_vault_price : Vaults Time → VaultKey → Price → Time → Vaults Time
  update_kg_vault_price vaults key price block_timestamp =
      update_vault_price now vaults key price block_timestamp

abbrev pub upsert_kg_position_on_deposit : Positions → VaultKey → String → ℤ → ℤ → Positions
upsert_kg_position_on_deposit positions key account_id shares total_deposits =
    upsert_position_on_deposit positions key account_id shares total_deposits

abbrev pub decrement_kg_position_on_redeem : Positions → VaultKey → String → ℤ → ℤ → Positions
decrement_kg_position_on_redeem positions key account_id shares total_redemptions =
    decrement_position_on_redeem positions key account_id shares total_redemptions

abbrev pub prune_zero_kg_positions : Positions → VaultKey → String → Positions
prune_zero_kg_positions positions key account_id = prune_zero_position positions key account_id
