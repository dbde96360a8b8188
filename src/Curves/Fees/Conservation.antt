-- ===== src/Curves/Fees/Conservation.antt =====
-- No quote of crates/curves/src/fees.rs creates or loses assets: what is not invested is a fee, and
-- every fee is the exact rate rounded up.
use intuition_core.Base.{ℕ, ◌+◌, ◌-◌, ◌*◌, ◌≤◌, ◌≡◌, Bool, true, false, ok, arith}
use intuition_core.Curves.Math.{CurveState, u256_max, add, sub, fee_on_raw}
use intuition_core.Curves.Rounding.{IsCeil, mul_div_up-IsCeil}
use intuition_core.Curves.Trait.{Curve}
use intuition_core.Curves.Fees.{
  FeeSchedule, AtomFees, TripleFees, DepositQuote, RedeemQuote, total, preview_redeem_with_fees,
  preview_atom_deposit, preview_triple_deposit,
}

pub fee_on_raw-IsCeil :
    (amount fee denominator : ℕ) {q : ℕ}
    → fee_on_raw amount fee denominator ≡ ok q
    → IsCeil (amount * fee) denominator q
unfolding fee_on_raw
fee_on_raw-IsCeil amount fee denominator h = mul_div_up-IsCeil amount fee denominator h

-- A fee that is charged on request: the rate rounded up, or nothing.
pub record IsFee (charge : Bool) (amount rate denominator fee : ℕ) : Type 0 where
  pub charged : charge ≡ true → IsCeil (amount * rate) denominator fee
  pub waived : charge ≡ false → fee ≡ 0

module _ (curve : Curve) where
  -- A deposit quote splits the assets into fees that add up to a word and the rest, which the curve
  -- has turned into the quoted shares.
  pub record Balanced (s : CurveState) (f : FeeSchedule) (a : ℕ) (entry : Bool) (q : DepositQuote)
      : Type 0 where
    pub before : q.assets_before_fees ≡ a
    pub sum_is :
        q.assets_after_fees
          + (q.fees.protocol_fee + q.fees.entry_fee + q.fees.atom_wallet_fee
              + q.fees.atom_deposit_fraction)
        ≡ a
    pub totals : total q.fees ≡ ok (a - q.assets_after_fees)
    pub protocol : IsCeil (a * f.protocol_fee) f.denominator q.fees.protocol_fee
    pub entry_fee : IsFee entry a f.entry_fee f.denominator q.fees.entry_fee
    pub priced : curve.preview_deposit q.assets_after_fees s ≡ ok q.shares

  -- Of a quoted atom deposit of a word, the fees and what is invested add up to the deposit, the
  -- breakdown's total does not overflow, each fee is its rate rounded up (the entry fee 0 unless it is
  -- charged), and the shares are the curve's quote for what is invested.
  pub preview_atom_deposit-Balanced :
      (a : ℕ) (s : CurveState) (f : FeeSchedule) (g : AtomFees) (entry : Bool) (q : DepositQuote)
      → a ≤ u256_max
      → preview_atom_deposit curve a s f g entry ≡ ok q
      → Balanced s f a entry q
        × IsCeil (a * g.atom_wallet_deposit_fee) f.denominator q.fees.atom_wallet_fee
        × (q.fees.atom_deposit_fraction ≡ 0)
  unfolding preview_atom_deposit total add sub
  preview_atom_deposit-Balanced a s f g entry q w h = ground (
    arith,
    fee_on_raw-IsCeil a f.protocol_fee f.denominator {q = q.fees.protocol_fee},
    fee_on_raw-IsCeil a f.entry_fee f.denominator {q = q.fees.entry_fee},
    fee_on_raw-IsCeil a g.atom_wallet_deposit_fee f.denominator {q = q.fees.atom_wallet_fee},
  )

  -- The same of a triple deposit, whose share for the underlying atoms is a fee on request too.
  pub preview_triple_deposit-Balanced :
      (a : ℕ) (s : CurveState) (f : FeeSchedule) (g : TripleFees) (entry fraction : Bool)
      (q : DepositQuote)
      → a ≤ u256_max
      → preview_triple_deposit curve a s f g entry fraction ≡ ok q
      → Balanced s f a entry q
        × IsFee fraction a g.atom_deposit_fraction f.denominator q.fees.atom_deposit_fraction
        × (q.fees.atom_wallet_fee ≡ 0)
  unfolding preview_triple_deposit total add sub
  preview_triple_deposit-Balanced a s f g entry fraction q w h = ground (
    arith,
    fee_on_raw-IsCeil a f.protocol_fee f.denominator {q = q.fees.protocol_fee},
    fee_on_raw-IsCeil a f.entry_fee f.denominator {q = q.fees.entry_fee},
    fee_on_raw-IsCeil a g.atom_deposit_fraction f.denominator {q = q.fees.atom_deposit_fraction},
  )

  pub preview_redeem_with_fees-sells :
      (sh : ℕ) (s : CurveState) (f : FeeSchedule) (exit : Bool) {q : RedeemQuote}
      → preview_redeem_with_fees curve sh s f exit ≡ ok q
      → (curve.preview_redeem sh s ≡ ok q.assets_before_fees)
        × (q.assets_after_fees ≤ q.assets_before_fees)
  unfolding preview_redeem_with_fees add sub
  preview_redeem_with_fees-sells sh s f exit h = ground arith

  -- A quoted redemption pays the curve's quote for the shares less a protocol fee and, on request, an
  -- exit fee, each the rate rounded up, and the breakdown's total does not overflow.
  pub preview_redeem_with_fees_lem :
      (sh : ℕ) (s : CurveState) (f : FeeSchedule) (exit : Bool) (q : RedeemQuote)
      → q.assets_before_fees ≤ u256_max
      → preview_redeem_with_fees curve sh s f exit ≡ ok q
      → (q.shares ≡ sh)
        × (curve.preview_redeem sh s ≡ ok q.assets_before_fees)
        × (q.assets_after_fees + (q.fees.protocol_fee + q.fees.exit_fee) ≡ q.assets_before_fees)
        × (total q.fees ≡ ok (q.assets_before_fees - q.assets_after_fees))
        × IsCeil (q.assets_before_fees * f.protocol_fee) f.denominator q.fees.protocol_fee
        × IsFee exit q.assets_before_fees f.exit_fee f.denominator q.fees.exit_fee
  unfolding preview_redeem_with_fees total add sub
  preview_redeem_with_fees_lem sh s f exit q w h = ground (
    arith,
    fee_on_raw-IsCeil q.assets_before_fees f.protocol_fee f.denominator {q = q.fees.protocol_fee},
    fee_on_raw-IsCeil q.assets_before_fees f.exit_fee f.denominator {q = q.fees.exit_fee},
  )
