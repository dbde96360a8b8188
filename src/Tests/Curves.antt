-- ===== src/Tests/Curves.antt =====
-- Quotes of the curves and the fees at a vault with five shares.
use intuition_core.Base.{ℕ, ◌*◌, ◌≤◌, ◌≡◌, ◌↔◌, refl, arith, true, ok}
use intuition_core.Curves.Math.{CurveState, unit}
use intuition_core.Curves.Trait.{after_deposit}
use intuition_core.Curves.Linear as Linear
use intuition_core.Curves.Linear.RoundTrip.{linear_deposit-redeem_le}
use intuition_core.Curves.Progressive.{
  OffsetProgressiveCurve, new, preview_deposit, preview_mint, preview_withdraw, preview_redeem,
  progressive_curve,
}
use intuition_core.Curves.Progressive.RoundTrip.{
  progressive_deposit-redeem_le, progressive_mint-deposit_le, progressive_withdraw-redeem_le,
}
use intuition_core.Curves.Progressive.Domain.{InDomain, new-preview_redeem}
use intuition_core.Curves.Fees.{
  FeeSchedule, AtomFees, TripleFees, DepositQuote, RedeemQuote, preview_redeem_with_fees,
  preview_atom_deposit, preview_triple_deposit,
}
use intuition_core.Curves.Fees.Conservation.{Balanced, preview_atom_deposit-Balanced}
use intuition_core.Curves.Fees.Trades.{trade_le}
use intuition_core.Curves.Rounding.{IsCeil}
use intuition_core.Tests.Root.{root}

abbrev vault : CurveState
vault = record { total_assets = 30000000000000000; total_shares = 5000000000000000000 }

abbrev curve : OffsetProgressiveCurve
curve = record {
  slope = 2000000000000000;
  half_slope = 1000000000000000;
  offset = 100000000000000000;
  max_shares = 340282366920938463463274607431768211455;
  max_assets = 115792089237316195423570985008687907852589409931798687112;
}

built : new root 2000000000000000 100000000000000000 ≡ ok curve
unfolding new intuition_core.Curves.Math.from_big intuition_core.Curves.Math.sqrt_ud60x18
    intuition_core.Curves.Math.sub intuition_core.Curves.Math.add intuition_core.Curves.Math.square
    intuition_core.Curves.Math.square_up
built = refl

deposited : preview_deposit root curve 10000000000000000 vault ≡ ok 900833275470999119
unfolding preview_deposit intuition_core.Curves.Math.check_curve_domains
    intuition_core.Curves.Math.check_deposit_bounds intuition_core.Curves.Math.add
    intuition_core.Curves.Math.square intuition_core.Curves.Math.sqrt_ud60x18
    intuition_core.Curves.Math.sub intuition_core.Curves.Math.check_deposit_out
deposited = refl

minted : preview_mint root curve 1000000000000000000 vault ≡ ok 11200000000000000
unfolding preview_mint intuition_core.Curves.Math.check_curve_domains
    intuition_core.Curves.Math.check_mint_bounds intuition_core.Curves.Math.add
    intuition_core.Curves.Math.square_up intuition_core.Curves.Math.square
    intuition_core.Curves.Math.sub intuition_core.Curves.Math.mul_up
    intuition_core.Curves.Math.check_mint_out
minted = refl

deposited_price : preview_deposit root curve 11200000000000000 vault ≡ ok 1000000000000000000
unfolding preview_deposit intuition_core.Curves.Math.check_curve_domains
    intuition_core.Curves.Math.check_deposit_bounds intuition_core.Curves.Math.add
    intuition_core.Curves.Math.square intuition_core.Curves.Math.sqrt_ud60x18
    intuition_core.Curves.Math.sub intuition_core.Curves.Math.check_deposit_out
deposited_price = refl

withdrawn : preview_withdraw root curve 10000000000000000 vault ≡ ok 1098750195251488676
unfolding preview_withdraw intuition_core.Curves.Math.check_curve_domains
    intuition_core.Curves.Math.check_withdraw intuition_core.Curves.Math.add
    intuition_core.Curves.Math.div_up intuition_core.Curves.Math.square
    intuition_core.Curves.Math.sub intuition_core.Curves.Math.sqrt_ud60x18
withdrawn = refl

redeemed : preview_redeem root curve 1098750195251488676 vault ≡ ok 10000000000000000
unfolding preview_redeem intuition_core.Curves.Math.check_curve_domains
    intuition_core.Curves.Math.check_redeem intuition_core.Curves.Math.add
    intuition_core.Curves.Math.sub intuition_core.Curves.Math.square
redeemed = refl

progressive_deposit-redeem_le_example :
    (b : ℕ) × (preview_redeem root curve 900833275470999119
        (after_deposit 10000000000000000 900833275470999119 vault)
      ≡ ok b)
    × (b ≤ 10000000000000000)
progressive_deposit-redeem_le_example =
    progressive_deposit-redeem_le root curve vault 10000000000000000 900833275470999119
      (omega arith) deposited

progressive_mint-deposit_le_example : 1000000000000000000 ≤ 1000000000000000000
progressive_mint-deposit_le_example =
    progressive_mint-deposit_le root curve vault 1000000000000000000 11200000000000000
      1000000000000000000 minted deposited_price

progressive_withdraw-redeem_le_example : 10000000000000000 ≤ 10000000000000000
progressive_withdraw-redeem_le_example =
    progressive_withdraw-redeem_le root curve vault 10000000000000000 1098750195251488676
      10000000000000000 withdrawn redeemed

new-preview_redeem_example :
    ((a : ℕ) × (preview_redeem root curve 1000000000000000000 vault ≡ ok a))
    ↔ (InDomain curve vault × (1000000000000000000 ≤ 5000000000000000000))
new-preview_redeem_example =
    new-preview_redeem root 2000000000000000 100000000000000000 curve vault 1000000000000000000
      built (omega arith)

-- The same vault on the linear curve.
linear_deposited : Linear.preview_deposit 10000000000000000 vault ≡ ok 1666666666666666666
unfolding Linear.preview_deposit intuition_core.Curves.Math.check_curve_domains
    intuition_core.Curves.Math.check_deposit_bounds Linear.convert_to_shares_unchecked
    intuition_core.Curves.Math.mul_div intuition_core.Curves.Math.check_deposit_out
linear_deposited = refl

linear_minted : Linear.preview_mint 1000000000000000001 vault ≡ ok 6000000000000001
unfolding Linear.preview_mint intuition_core.Curves.Math.check_curve_domains
    intuition_core.Curves.Math.check_mint_bounds intuition_core.Curves.Math.mul_div_up
    intuition_core.Curves.Math.check_mint_out
linear_minted = refl

linear_deposited_price : Linear.preview_deposit 6000000000000001 vault ≡ ok 1000000000000000166
unfolding Linear.preview_deposit intuition_core.Curves.Math.check_curve_domains
    intuition_core.Curves.Math.check_deposit_bounds Linear.convert_to_shares_unchecked
    intuition_core.Curves.Math.mul_div intuition_core.Curves.Math.check_deposit_out
linear_deposited_price = refl

linear_withdrawn : Linear.preview_withdraw 10000000000000000 vault ≡ ok 1666666666666666667
unfolding Linear.preview_withdraw intuition_core.Curves.Math.check_curve_domains
    intuition_core.Curves.Math.check_withdraw intuition_core.Curves.Math.mul_div_up
linear_withdrawn = refl

linear_redeemed : Linear.preview_redeem 1666666666666666667 vault ≡ ok 10000000000000000
unfolding Linear.preview_redeem intuition_core.Curves.Math.check_curve_domains
    intuition_core.Curves.Math.check_redeem Linear.convert_to_assets_unchecked
    intuition_core.Curves.Math.mul_div
linear_redeemed = refl

linear_deposit-redeem_le_example :
    (b : ℕ) × (Linear.preview_redeem 1666666666666666666
        (after_deposit 10000000000000000 1666666666666666666 vault)
      ≡ ok b)
    × (b ≤ 10000000000000000)
linear_deposit-redeem_le_example =
    linear_deposit-redeem_le vault 10000000000000000 1666666666666666666 (λ e. absurd (omega arith))
      linear_deposited

abbrev schedule : FeeSchedule
schedule = record { denominator = 10000; protocol_fee = 100; entry_fee = 50; exit_fee = 75 }

abbrev atom_fees : AtomFees
atom_fees = record { atom_wallet_deposit_fee = 25 }

abbrev triple_fees : TripleFees
triple_fees = record { atom_deposit_fraction = 90 }

abbrev atom_quote : DepositQuote
atom_quote = record {
  shares = 886234208582220181;
  assets_before_fees = 10000000000000000;
  assets_after_fees = 9825000000000000;
  fees = record {
    protocol_fee = 100000000000000;
    entry_fee = 50000000000000;
    exit_fee = 0;
    atom_wallet_fee = 25000000000000;
    atom_deposit_fraction = 0;
  };
}

abbrev triple_quote : DepositQuote
triple_quote = record {
  shares = 880802621722271817;
  assets_before_fees = 10000000000000000;
  assets_after_fees = 9760000000000000;
  fees = record {
    protocol_fee = 100000000000000;
    entry_fee = 50000000000000;
    exit_fee = 0;
    atom_wallet_fee = 0;
    atom_deposit_fraction = 90000000000000;
  };
}

abbrev redeem_quote : RedeemQuote
redeem_quote = record {
  shares = 886234208582220181;
  assets_before_fees = 9824999999999999;
  assets_after_fees = 9653062499999999;
  fees = record {
    protocol_fee = 98250000000000;
    entry_fee = 0;
    exit_fee = 73687500000000;
    atom_wallet_fee = 0;
    atom_deposit_fraction = 0;
  };
}

atom_deposited :
    preview_atom_deposit
      (progressive_curve root curve)
      10000000000000000
      vault
      schedule
      atom_fees
      true
    ≡ ok atom_quote
unfolding preview_atom_deposit progressive_curve intuition_core.Curves.Math.fee_on_raw
    intuition_core.Curves.Math.add intuition_core.Curves.Math.sub preview_deposit
    intuition_core.Curves.Math.check_curve_domains intuition_core.Curves.Math.check_deposit_bounds
    intuition_core.Curves.Math.square intuition_core.Curves.Math.sqrt_ud60x18
    intuition_core.Curves.Math.check_deposit_out
atom_deposited = refl

triple_deposited :
    preview_triple_deposit
      (progressive_curve root curve)
      10000000000000000
      vault
      schedule
      triple_fees
      true
      true
    ≡ ok triple_quote
unfolding preview_triple_deposit progressive_curve intuition_core.Curves.Math.fee_on_raw
    intuition_core.Curves.Math.add intuition_core.Curves.Math.sub preview_deposit
    intuition_core.Curves.Math.check_curve_domains intuition_core.Curves.Math.check_deposit_bounds
    intuition_core.Curves.Math.square intuition_core.Curves.Math.sqrt_ud60x18
    intuition_core.Curves.Math.check_deposit_out
triple_deposited = refl

atom_redeemed :
    preview_redeem_with_fees
      (progressive_curve root curve)
      886234208582220181
      (after_deposit 9825000000000000 886234208582220181 vault)
      schedule
      true
    ≡ ok redeem_quote
unfolding preview_redeem_with_fees progressive_curve preview_redeem
    intuition_core.Curves.Math.check_curve_domains intuition_core.Curves.Math.check_redeem
    intuition_core.Curves.Math.add intuition_core.Curves.Math.sub intuition_core.Curves.Math.square
    intuition_core.Curves.Math.fee_on_raw
atom_redeemed = refl

preview_atom_deposit-Balanced_example :
    Balanced (progressive_curve root curve) vault schedule 10000000000000000 true atom_quote
    × IsCeil (10000000000000000 * 25) 10000 25000000000000
    × (atom_quote.fees.atom_deposit_fraction ≡ 0)
preview_atom_deposit-Balanced_example =
    preview_atom_deposit-Balanced (progressive_curve root curve) 10000000000000000 vault schedule
      atom_fees true atom_quote (omega arith) atom_deposited

trade_le_example : (9653062499999999 ≤ 9825000000000000) × (9825000000000000 ≤ 10000000000000000)
trade_le_example =
    trade_le root curve vault 10000000000000000 schedule schedule atom_fees true true atom_quote
      redeem_quote (omega arith) atom_deposited atom_redeemed
