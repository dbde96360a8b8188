-- ===== src/Curves/Linear.antt =====
-- crates/curves/src/linear.rs: shares and assets in proportion to the vault's totals.
pub mod RoundTrip
use intuition_core.Base.{ℕ, ok, ◌==◌, if◌then◌else◌, ◌>>=◌, ◌>>◌}
use intuition_core.Curves.Math.{
  Checked, CurveState, u256_max, unit, mul_div, mul_div_up, check_curve_domains,
  check_deposit_bounds, check_deposit_out, check_mint_bounds, check_mint_out, check_withdraw,
  check_redeem,
}
use intuition_core.Curves.Trait.{Curve}

abbrev pub max_shares : ℕ
max_shares = u256_max

abbrev pub max_assets : ℕ
max_assets = u256_max

abbrev check_domains : CurveState → Checked (Unit {0})
check_domains state =
    check_curve_domains state.total_assets state.total_shares max_assets max_shares

unfoldable pub convert_to_shares_unchecked : ℕ → CurveState → Checked ℕ
convert_to_shares_unchecked assets state =
    if state.total_shares == 0
    then ok assets
    else mul_div assets state.total_shares state.total_assets

unfoldable pub convert_to_assets_unchecked : ℕ → CurveState → Checked ℕ
convert_to_assets_unchecked shares state =
    if state.total_shares == 0
    then ok shares
    else mul_div shares state.total_assets state.total_shares

unfoldable pub preview_deposit : ℕ → CurveState → Checked ℕ
preview_deposit assets state = do
  check_domains state
  check_deposit_bounds assets state.total_assets max_assets
  shares ← convert_to_shares_unchecked assets state
  check_deposit_out shares state.total_shares max_shares
  ok shares

unfoldable pub preview_mint : ℕ → CurveState → Checked ℕ
preview_mint shares state = do
  check_domains state
  check_mint_bounds shares state.total_shares max_shares
  assets ←
      if state.total_shares == 0
      then ok shares
      else mul_div_up shares state.total_assets state.total_shares
  check_mint_out assets state.total_assets max_assets
  ok assets

unfoldable pub preview_withdraw : ℕ → CurveState → Checked ℕ
preview_withdraw assets state = do
  check_domains state
  check_withdraw assets state.total_assets
  if state.total_shares == 0
      then ok assets
      else mul_div_up assets state.total_shares state.total_assets

unfoldable pub preview_redeem : ℕ → CurveState → Checked ℕ
preview_redeem shares state = do
  check_domains state
  check_redeem shares state.total_shares
  convert_to_assets_unchecked shares state

unfoldable pub convert_to_shares : ℕ → CurveState → Checked ℕ
unfolding preview_deposit
convert_to_shares assets state = preview_deposit assets state

unfoldable pub convert_to_assets : ℕ → CurveState → Checked ℕ
convert_to_assets shares state = do
  check_domains state
  check_redeem shares state.total_shares
  convert_to_assets_unchecked shares state

unfoldable pub current_price : CurveState → Checked ℕ
current_price state = do check_domains state; convert_to_assets_unchecked unit state

unfoldable pub linear_curve : Curve
linear_curve = record {
  max_shares = max_shares;
  max_assets = max_assets;
  preview_deposit = preview_deposit;
  preview_mint = preview_mint;
  preview_withdraw = preview_withdraw;
  preview_redeem = preview_redeem;
  convert_to_shares = convert_to_shares;
  convert_to_assets = convert_to_assets;
  current_price = current_price;
}
