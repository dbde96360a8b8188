-- ===== src/Curves/Fees/Trades.antt =====
-- A deposit and a redemption with fees, one after the other, on the curves of crates/curves/src.
use intuition_core.Base.{ℕ, ◌≤◌, ◌≡◌, Bool, ok, arith}
use intuition_core.Curves.Math.{CurveState, FloorSqrt, u256_max}
use intuition_core.Curves.Trait.{after_deposit}
use intuition_core.Curves.Progressive.{OffsetProgressiveCurve, progressive_curve}
use intuition_core.Curves.Progressive.RoundTrip.{progressive_deposit-redeem_le}
use intuition_core.Curves.Fees.{
  FeeSchedule, AtomFees, DepositQuote, RedeemQuote, preview_redeem_with_fees, preview_atom_deposit,
}
use intuition_core.Curves.Fees.Conservation.{
  preview_atom_deposit-Balanced, preview_redeem_with_fees-sells,
}

-- On the offset progressive curve, whoever deposits into an atom and redeems the shares at once, under
-- any fees, is paid at most what the deposit invested after its fees, so at most the deposit.
pub trade_le :
    (r : FloorSqrt) (c : OffsetProgressiveCurve) (s : CurveState) (a : ℕ) (f f' : FeeSchedule)
    (g : AtomFees) (entry exit : Bool) (q : DepositQuote) (p : RedeemQuote)
    → a ≤ u256_max
    → preview_atom_deposit (progressive_curve r c) a s f g entry ≡ ok q
    → preview_redeem_with_fees
        (progressive_curve r c)
        q.shares
        (after_deposit q.assets_after_fees q.shares s)
        f'
        exit
      ≡ ok p
    → (p.assets_after_fees ≤ q.assets_after_fees) × (q.assets_after_fees ≤ a)
unfolding progressive_curve
trade_le r c s a f f' g entry exit q p w bought sold =
    let (balanced, _, _) =
      preview_atom_deposit-Balanced (progressive_curve r c) a s f g entry q w bought in
    let invested : q.assets_after_fees ≤ a = omega (arith, balanced.sum_is) in
    let (b, redeems, le) =
      progressive_deposit-redeem_le r c s q.assets_after_fees q.shares (omega arith)
        balanced.priced in
    let (sells, net) =
      preview_redeem_with_fees-sells (progressive_curve r c) q.shares
        (after_deposit q.assets_after_fees q.shares s) f' exit sold in
    let paid : p.assets_before_fees ≡ b = cc (sells, redeems) in (omega arith, invested)
