-- ===== src/Curves/Fees.antt =====
-- crates/curves/src/fees.rs: deposits and redemptions quoted with the vault's fees, over any curve.
pub mod Conservation
pub mod Variants
pub mod Trades
use intuition_core.Base.{ℕ, Bool, ok, if◌then◌else◌, ◌>>=◌}
use intuition_core.Curves.Math.{Checked, CurveState, add, sub, fee_on_raw}
use intuition_core.Curves.Trait.{Curve}

pub record FeeSchedule : Type 0 where
  pub denominator : ℕ
  pub protocol_fee : ℕ
  pub entry_fee : ℕ
  pub exit_fee : ℕ

pub record AtomFees : Type 0 where
  pub atom_wallet_deposit_fee : ℕ

pub record TripleFees : Type 0 where
  pub atom_deposit_fraction : ℕ

pub record FeeBreakdown : Type 0 where
  pub protocol_fee : ℕ
  pub entry_fee : ℕ
  pub exit_fee : ℕ
  pub atom_wallet_fee : ℕ
  pub atom_deposit_fraction : ℕ

-- `FeeBreakdown::default()`.
abbrev no_fees : FeeBreakdown
no_fees = record {
  protocol_fee = 0;
  entry_fee = 0;
  exit_fee = 0;
  atom_wallet_fee = 0;
  atom_deposit_fraction = 0;
}

unfoldable pub total : FeeBreakdown → Checked ℕ
total fees = do
  a ← add fees.protocol_fee fees.entry_fee
  b ← add a fees.exit_fee
  c ← add b fees.atom_wallet_fee
  add c fees.atom_deposit_fraction

pub record DepositQuote : Type 0 where
  pub shares : ℕ
  pub assets_before_fees : ℕ
  pub assets_after_fees : ℕ
  pub fees : FeeBreakdown

pub record RedeemQuote : Type 0 where
  pub shares : ℕ
  pub assets_before_fees : ℕ
  pub assets_after_fees : ℕ
  pub fees : FeeBreakdown

-- A fee that is charged only on request.
abbrev charged : Bool → ℕ → ℕ → ℕ → Checked ℕ
charged charge amount fee denominator = if charge then fee_on_raw amount fee denominator else ok 0

module _ (curve : Curve) where
  unfoldable pub preview_deposit_with_fees :
      ℕ → CurveState → FeeSchedule → Bool → Checked DepositQuote
  preview_deposit_with_fees assets_before_fees state fees charge_entry_fee = do
    protocol_fee ← fee_on_raw assets_before_fees fees.protocol_fee fees.denominator
    entry_fee ← charged charge_entry_fee assets_before_fees fees.entry_fee fees.denominator
    total_fees ← add protocol_fee entry_fee
    assets_after_fees ← sub assets_before_fees total_fees
    shares ← curve.preview_deposit assets_after_fees state
    ok (record {
      shares = shares;
      assets_before_fees = assets_before_fees;
      assets_after_fees = assets_after_fees;
      fees = record no_fees { protocol_fee = protocol_fee; entry_fee = entry_fee };
    })

  unfoldable pub preview_redeem_with_fees :
      ℕ → CurveState → FeeSchedule → Bool → Checked RedeemQuote
  preview_redeem_with_fees shares state fees charge_exit_fee = do
    assets_before_fees ← curve.preview_redeem shares state
    protocol_fee ← fee_on_raw assets_before_fees fees.protocol_fee fees.denominator
    exit_fee ← charged charge_exit_fee assets_before_fees fees.exit_fee fees.denominator
    total_fees ← add protocol_fee exit_fee
    assets_after_fees ← sub assets_before_fees total_fees
    ok (record {
      shares = shares;
      assets_before_fees = assets_before_fees;
      assets_after_fees = assets_after_fees;
      fees = record no_fees { protocol_fee = protocol_fee; exit_fee = exit_fee };
    })

  unfoldable pub preview_atom_deposit :
      ℕ → CurveState → FeeSchedule → AtomFees → Bool → Checked DepositQuote
  preview_atom_deposit assets state fees atom_fees charge_entry_fee = do
    protocol_fee ← fee_on_raw assets fees.protocol_fee fees.denominator
    entry_fee ← charged charge_entry_fee assets fees.entry_fee fees.denominator
    atom_wallet_fee ← fee_on_raw assets atom_fees.atom_wallet_deposit_fee fees.denominator
    base ← add protocol_fee entry_fee
    total ← add base atom_wallet_fee
    assets_after_fees ← sub assets total
    shares ← curve.preview_deposit assets_after_fees state
    ok (record {
      shares = shares;
      assets_before_fees = assets;
      assets_after_fees = assets_after_fees;
      fees = record no_fees {
        protocol_fee = protocol_fee;
        entry_fee = entry_fee;
        atom_wallet_fee = atom_wallet_fee;
      };
    })

  unfoldable pub preview_triple_deposit :
      ℕ → CurveState → FeeSchedule → TripleFees → Bool → Bool → Checked DepositQuote
  preview_triple_deposit assets state fees triple_fees charge_entry_fee charge_fraction = do
    protocol_fee ← fee_on_raw assets fees.protocol_fee fees.denominator
    entry_fee ← charged charge_entry_fee assets fees.entry_fee fees.denominator
    atom_deposit_fraction ←
        charged charge_fraction assets triple_fees.atom_deposit_fraction fees.denominator
    base ← add protocol_fee entry_fee
    total ← add base atom_deposit_fraction
    assets_after_fees ← sub assets total
    shares ← curve.preview_deposit assets_after_fees state
    ok (record {
      shares = shares;
      assets_before_fees = assets;
      assets_after_fees = assets_after_fees;
      fees = record no_fees {
        protocol_fee = protocol_fee;
        entry_fee = entry_fee;
        atom_deposit_fraction = atom_deposit_fraction;
      };
    })
