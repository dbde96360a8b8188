-- ===== src/Projections/Tables.antt =====
-- crates/projections/src/repo/vault_repo.rs and kg_market_repo.rs: the statements on `vault` and
-- `market.vaults`, on `share_price_history`, `market.events` and the two `active_vault_position` tables.
-- Numeric columns are integers, since all amounts come from uint256 words. A statement that both
-- repositories have, word for word, on tables of the same columns is one definition here.
use Prim.Native.String.{String, ◌++◌ as text_append}
use intuition_core.Base.{
  ℕ, Bool, not, Option, none, some, ℤ, pos, ◌+ℤ◌, ◌-ℤ◌, is_positive, Eq, Table, upsert, insert_new,
  update, delete_if, count_if, pair_eq, text_eq, ◌&&◌,
}
use intuition_core.Events.{Serde, DepositedRecord, RedeemedRecord, SharePriceChangedRecord}
use intuition_core.Events.Parsing.{EventMetadata}

-- BigDecimal and chrono, as far as they are called.
pub record Externals (J : Serde) : Type 0 where
  pub amount : J.Decimal → ℤ
  pub decimal_to_string : J.Decimal → String
  pub canonical_shard_key : J.Decimal → String
  pub number_to_string : ℕ → String
  pub u256_from_str : String → Option ℕ

-- The columns of a vault besides its key.
pub record Vault (Time : Type 0) : Type 0 where
  pub total_shares : ℤ
  pub current_share_price : ℤ
  pub total_assets : ℤ
  pub total_deposits : ℤ
  pub total_redemptions : ℤ
  pub market_cap : ℤ
  pub holder_count : ℕ
  pub updated_at : Time

-- `(term_id, curve_id)`.
abbrev pub VaultKey : Type 0
VaultKey = String × String

abbrev pub Vaults : Type 0 → Type 0
Vaults Time = Table VaultKey (Vault Time)

-- Without the times at which it was opened and changed.
pub record Position : Type 0 where
  pub shares : ℤ
  pub total_deposits : ℤ
  pub total_redemptions : ℤ

-- `(term_id, curve_id)` and `account_id`.
abbrev pub Positions : Type 0
Positions = Table (VaultKey × String) Position

pub record Price : Type 0 where
  pub share_price : ℤ
  pub total_assets : ℤ
  pub total_shares : ℤ
  pub market_cap : ℤ

pub record PriceRow : Type 0 where
  pub vault : VaultKey
  pub price : Price
  pub block_number : ℕ
  pub transaction_hash : String

-- Without the columns that are the same in each row, and `vault_id`, which is the entity.
pub record MarketEvent : Type 0 where
  pub entity_id : String
  pub event_type : String
  pub account_id : Option String
  pub amount : Option ℤ
  pub price : Option ℤ
  pub shares : ℤ
  pub direction : Option String

module _ {Time : Type 0} (now : Time) where
  unfoldable pub upsert_vault_on_deposit : Vaults Time → VaultKey → ℤ → Time → Vaults Time
  upsert_vault_on_deposit vaults key assets_after_fees block_timestamp =
      upsert vaults key
        (record {
          total_shares = pos 0;
          current_share_price = pos 0;
          total_assets = pos 0;
          total_deposits = assets_after_fees;
          total_redemptions = pos 0;
          market_cap = pos 0;
          holder_count = 0;
          updated_at = block_timestamp;
        })
        (λ vault. record vault {
          total_deposits = vault.total_deposits +ℤ assets_after_fees;
          updated_at = now;
        })

  unfoldable pub upsert_vault_on_redeem : Vaults Time → VaultKey → ℤ → Time → Vaults Time
  upsert_vault_on_redeem vaults key assets block_timestamp =
      upsert vaults key
        (record {
          total_shares = pos 0;
          current_share_price = pos 0;
          total_assets = pos 0;
          total_deposits = pos 0;
          total_redemptions = assets;
          market_cap = pos 0;
          holder_count = 0;
          updated_at = block_timestamp;
        })
        (λ vault. record vault {
          total_deposits = vault.total_deposits -ℤ assets;
          total_redemptions = vault.total_redemptions +ℤ assets;
          updated_at = now;
        })

  unfoldable pub update_vault_price : Vaults Time → VaultKey → Price → Time → Vaults Time
  update_vault_price vaults key price block_timestamp =
      upsert vaults key
        (record {
          total_shares = price.total_shares;
          current_share_price = price.share_price;
          total_assets = price.total_assets;
          total_deposits = pos 0;
          total_redemptions = pos 0;
          market_cap = price.market_cap;
          holder_count = 0;
          updated_at = block_timestamp;
        })
        (λ vault. record vault {
          total_shares = price.total_shares;
          current_share_price = price.share_price;
          total_assets = price.total_assets;
          market_cap = price.market_cap;
          updated_at = now;
        })

-- The condition of the count.
unfoldable pub is_holder : VaultKey → VaultKey × String → Position → Bool
is_holder key (vault, account_id) position = pair_eq.same vault key && is_positive position.shares

unfoldable pub refresh_holder_count :
    {Time : Type 0} → Vaults Time → Positions → VaultKey → Vaults Time
unfolding is_holder
refresh_holder_count vaults positions key =
    update vaults key (λ vault. record vault { holder_count = count_if positions (is_holder key) })

unfoldable pub upsert_position_on_deposit : Positions → VaultKey → String → ℤ → ℤ → Positions
upsert_position_on_deposit positions key account_id shares total_deposits =
    upsert positions (key, account_id)
      (record { shares = shares; total_deposits = total_deposits; total_redemptions = pos 0 })
      (λ position. record position {
        shares = position.shares +ℤ shares;
        total_deposits = position.total_deposits +ℤ total_deposits;
      })

unfoldable pub decrement_position_on_redeem : Positions → VaultKey → String → ℤ → ℤ → Positions
decrement_position_on_redeem positions key account_id shares total_redemptions =
    update positions (key, account_id)
      (λ position. record position {
        shares = position.shares -ℤ shares;
        total_redemptions = position.total_redemptions +ℤ total_redemptions;
      })

unfoldable pub prune_zero_position : Positions → VaultKey → String → Positions
prune_zero_position positions key account_id =
    delete_if positions (key, account_id) (λ position. not (is_positive position.shares))

abbrev pub History : Type 0 → Type 0
History Time = Table (String × Time) PriceRow

-- Keyed by `(event_time, id)`.
abbrev pub MarketEvents : Type 0 → Type 0
MarketEvents Time = Table (Time × String) MarketEvent

-- A price event's columns, with the market capitalisation that its handler has computed.
abbrev pub price_of : {J : Serde} → Externals J → SharePriceChangedRecord J.Decimal → ℤ → Price
price_of E d market_cap = record {
  share_price = E.amount d.share_price;
  total_assets = E.amount d.total_assets;
  total_shares = E.amount d.total_shares;
  market_cap = market_cap;
}

module _ {J : Serde} ⦃t : Eq J.Time⦄ (E : Externals J) where
  unfoldable pub insert_share_price_history :
      History J.Time → String → VaultKey → Price → EventMetadata J → History J.Time
  insert_share_price_history history event_id key price metadata =
      insert_new history (event_id, metadata.block_timestamp)
        (record {
          vault = key;
          price = price;
          block_number = metadata.block_number;
          transaction_hash = metadata.transaction_hash;
        })

  -- `"{tx_hash}:{log_index}"`.
  unfoldable pub market_event_id : EventMetadata J → String
  market_event_id metadata =
      text_append metadata.transaction_hash
        (text_append ":" (E.number_to_string metadata.log_index))

  unfoldable pub insert_kg_market_event_deposited :
      MarketEvents J.Time → EventMetadata J → DepositedRecord J.Decimal → MarketEvents J.Time
  insert_kg_market_event_deposited events metadata d =
      insert_new events (metadata.block_timestamp, market_event_id metadata)
        (record {
          entity_id = d.term_id;
          event_type = "deposited";
          account_id = some d.receiver;
          amount = some (E.amount d.assets_after_fees);
          price = none;
          shares = E.amount d.shares;
          direction = some "in";
        })

  unfoldable pub insert_kg_market_event_redeemed :
      MarketEvents J.Time → EventMetadata J → RedeemedRecord J.Decimal → MarketEvents J.Time
  insert_kg_market_event_redeemed events metadata d =
      insert_new events (metadata.block_timestamp, market_event_id metadata)
        (record {
          entity_id = d.term_id;
          event_type = "redeemed";
          account_id = some d.sender;
          amount = some (E.amount d.assets);
          price = none;
          shares = E.amount d.shares;
          direction = some "out";
        })

  unfoldable pub insert_kg_market_event_share_price_changed :
      MarketEvents J.Time
      → EventMetadata J
      → SharePriceChangedRecord J.Decimal
      → MarketEvents J.Time
  insert_kg_market_event_share_price_changed events metadata d =
      insert_new events (metadata.block_timestamp, market_event_id metadata)
        (record {
          entity_id = d.term_id;
          event_type = "share_price_changed";
          account_id = none;
          amount = none;
          price = some (E.amount d.share_price);
          shares = E.amount d.total_shares;
          direction = none;
        })
