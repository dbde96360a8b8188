-- ===== src/Curves/Progressive.antt =====
-- crates/curves/src/offset_progressive.rs: a price that rises linearly in the shares, with an offset.
-- `BigUint::sqrt` is the parameter `r`.
pub mod Quotes
pub mod RoundTrip
pub mod Domain
use intuition_core.Base.{ℕ, ◌/◌, ◌%◌, ok, err, ◌==◌, ◌||◌, if◌then◌else◌, ◌>>=◌, ◌>>◌}
use intuition_core.Curves.Math.{
  Checked, CurveState, FloorSqrt, u256_max, unit, from_big, add, sub, mul_div, mul_up, div_up,
  square, square_up, sqrt_ud60x18, invalid_slope, check_curve_domains, check_deposit_bounds,
  check_deposit_out, check_mint_bounds, check_mint_out, check_withdraw, check_redeem,
}
use intuition_core.Curves.Trait.{Curve}

pub record OffsetProgressiveCurve : Type 0 where
  pub slope : ℕ
  pub half_slope : ℕ
  pub offset : ℕ
  pub max_shares : ℕ
  pub max_assets : ℕ

-- The first block of `new`: the largest supply whose square fits.
abbrev new_max_shares : FloorSqrt → ℕ → Checked ℕ
new_max_shares r offset = do
  v ← from_big (u256_max / unit)
  max_shares_before_offset ← sqrt_ud60x18 r v
  sub max_shares_before_offset offset

-- The second block of `new`: the area below the price line up to that supply.
abbrev new_max_assets : ℕ → ℕ → ℕ → Checked ℕ
new_max_assets max_shares offset half_slope = do
  max_shares_with_offset ← add max_shares offset
  upper ← square max_shares_with_offset
  lower ← square_up offset
  assets_span ← sub upper lower
  mul_div assets_span half_slope unit

-- `slope.bit(0)` is the parity of the slope, and `slope >> 1` its half.
unfoldable pub new : FloorSqrt → ℕ → ℕ → Checked OffsetProgressiveCurve
new r slope offset = if slope == 0 || slope % 2 == 1 then err invalid_slope else do
  let half_slope = slope / 2
  max_shares ← new_max_shares r offset
  max_assets ← new_max_assets max_shares offset half_slope
  ok (record {
    slope = slope;
    half_slope = half_slope;
    offset = offset;
    max_shares = max_shares;
    max_assets = max_assets;
  })

module _ (r : FloorSqrt) (c : OffsetProgressiveCurve) where
  open c use {slope, half_slope, offset, max_shares, max_assets}

  abbrev check_domains : CurveState → Checked (Unit {0})
  check_domains state =
      check_curve_domains state.total_assets state.total_shares max_assets max_shares

  unfoldable pub convert_to_shares_internal : ℕ → CurveState → Checked ℕ
  convert_to_shares_internal assets state = do
    check_domains state
    check_deposit_bounds assets state.total_assets max_assets
    s ← add state.total_shares offset
    squared ← square s
    bought ← mul_div assets unit half_slope
    inner ← add squared bought
    root ← sqrt_ud60x18 r inner
    shares ← sub root s
    check_deposit_out shares state.total_shares max_shares
    ok shares

  unfoldable pub convert_to_assets_internal : ℕ → CurveState → Checked ℕ
  convert_to_assets_internal shares state = do
    check_domains state
    check_redeem shares state.total_shares
    s ← add state.total_shares offset
    s_next ← sub s shares
    upper ← square s
    lower ← square s_next
    area ← sub upper lower
    mul_div area half_slope unit

  unfoldable pub preview_deposit : ℕ → CurveState → Checked ℕ
  unfolding convert_to_shares_internal
  preview_deposit assets state = convert_to_shares_internal assets state

  unfoldable pub preview_mint : ℕ → CurveState → Checked ℕ
  preview_mint shares state = do
    check_domains state
    check_mint_bounds shares state.total_shares max_shares
    s ← add state.total_shares offset
    s_next ← add s shares
    upper ← square_up s_next
    lower ← square s
    area ← sub upper lower
    assets ← mul_up area half_slope
    check_mint_out assets state.total_assets max_assets
    ok assets

  unfoldable pub preview_withdraw : ℕ → CurveState → Checked ℕ
  preview_withdraw assets state = do
    check_domains state
    check_withdraw assets state.total_assets
    s ← add state.total_shares offset
    deduct ← div_up assets half_slope
    squared ← square s
    inner ← sub squared deduct
    root ← sqrt_ud60x18 r inner
    sub s root

  unfoldable pub preview_redeem : ℕ → CurveState → Checked ℕ
  unfolding convert_to_assets_internal
  preview_redeem shares state = convert_to_assets_internal shares state

  unfoldable pub convert_to_shares : ℕ → CurveState → Checked ℕ
  unfolding convert_to_shares_internal
  convert_to_shares assets state = convert_to_shares_internal assets state

  unfoldable pub convert_to_assets : ℕ → CurveState → Checked ℕ
  unfolding convert_to_assets_internal
  convert_to_assets shares state = convert_to_assets_internal shares state

  unfoldable pub current_price : CurveState → Checked ℕ
  current_price state = do
    check_domains state
    s ← add state.total_shares offset
    mul_div s slope unit

  unfoldable pub progressive_curve : Curve
  progressive_curve = record {
    max_shares = max_shares;
    max_assets = max_assets;
    preview_deposit = preview_deposit;
    preview_mint = preview_mint;
    preview_withdraw = preview_withdraw;
    preview_redeem = preview_redeem;
    convert_to_shares = convert_to_shares;
    convert_to_assets = convert_to_assets;
    current_price = current_price;
  }
