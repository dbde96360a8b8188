-- ===== src/Curves/Progressive/Quotes.antt =====
-- What a successful quote of crates/curves/src/offset_progressive.rs has computed on its way.
use intuition_core.Base.{ℕ, ◌+◌, ◌-◌, ◌*◌, ◌≤◌, ◌≡◌, ok, arith}
use intuition_core.Curves.Math.{
  CurveState, FloorSqrt, u256_max, unit, add, sub, mul_div, mul_up, div_up, square, square_up,
  sqrt_ud60x18, check_curve_domains, check_deposit_bounds, check_deposit_out, check_mint_bounds,
  check_mint_out, check_withdraw, check_redeem,
}
use intuition_core.Curves.Rounding.{IsFloor, IsCeil, mul_div-IsFloor, mul_div_up-IsCeil}
use intuition_core.Curves.Progressive.{
  OffsetProgressiveCurve, preview_deposit, preview_mint, preview_withdraw, preview_redeem,
}

pub square-IsFloor : (x : ℕ) {q : ℕ} → square x ≡ ok q → IsFloor (x * x) unit q
unfolding square
square-IsFloor x h = mul_div-IsFloor x x unit h

pub square_up-IsCeil : (x : ℕ) {q : ℕ} → square_up x ≡ ok q → IsCeil (x * x) unit q
unfolding square_up
square_up-IsCeil x h = mul_div_up-IsCeil x x unit h

pub mul_up-IsCeil : (x y : ℕ) {q : ℕ} → mul_up x y ≡ ok q → IsCeil (x * y) unit q
unfolding mul_up
mul_up-IsCeil x y h = mul_div_up-IsCeil x y unit h

pub div_up-IsCeil : (x y : ℕ) {q : ℕ} → div_up x y ≡ ok q → IsCeil (x * unit) y q
unfolding div_up
div_up-IsCeil x y h = mul_div_up-IsCeil x unit y h

module _ (r : FloorSqrt) (c : OffsetProgressiveCurve) (s : CurveState) where
  open c use {half_slope, offset, max_shares, max_assets}
  open s use {total_assets, total_shares}

  pub record Deposits (a sh : ℕ) : Type 0 where
    pub squared : ℕ
    pub bought : ℕ
    pub root : ℕ
    pub room_assets : total_assets + a ≤ max_assets
    pub room_shares : total_shares + sh ≤ max_shares
    pub squares : square (total_shares + offset) ≡ ok squared
    pub buys : mul_div a unit half_slope ≡ ok bought
    pub roots : sqrt_ud60x18 r (squared + bought) ≡ ok root
    pub fits : squared + bought ≤ u256_max
    pub shares : total_shares + offset + sh ≡ root

  pub preview_deposit-Deposits : (a : ℕ) {sh : ℕ} → preview_deposit r c a s ≡ ok sh → Deposits a sh
  unfolding preview_deposit check_curve_domains check_deposit_bounds check_deposit_out add sub
  preview_deposit-Deposits a h = ground arith

  pub record Redeems (sh a : ℕ) : Type 0 where
    pub upper : ℕ
    pub lower : ℕ
    pub in_assets : total_assets ≤ max_assets
    pub in_shares : total_shares ≤ max_shares
    pub held : sh ≤ total_shares
    pub upper_squares : square (total_shares + offset) ≡ ok upper
    pub lower_squares : square (total_shares + offset - sh) ≡ ok lower
    pub ordered : lower ≤ upper
    pub pays : mul_div (upper - lower) half_slope unit ≡ ok a

  pub preview_redeem-Redeems : (sh : ℕ) {a : ℕ} → preview_redeem r c sh s ≡ ok a → Redeems sh a
  unfolding preview_redeem check_curve_domains check_redeem add sub
  preview_redeem-Redeems sh h = ground arith

  pub record Mints (sh a : ℕ) : Type 0 where
    pub upper : ℕ
    pub lower : ℕ
    pub upper_squares : square_up (total_shares + offset + sh) ≡ ok upper
    pub lower_squares : square (total_shares + offset) ≡ ok lower
    pub ordered : lower ≤ upper
    pub costs : mul_up (upper - lower) half_slope ≡ ok a

  pub preview_mint-Mints : (sh : ℕ) {a : ℕ} → preview_mint r c sh s ≡ ok a → Mints sh a
  unfolding preview_mint check_curve_domains check_mint_bounds check_mint_out add sub
  preview_mint-Mints sh h = ground arith

  pub record Withdraws (a sh : ℕ) : Type 0 where
    pub deduct : ℕ
    pub squared : ℕ
    pub root : ℕ
    pub held : a ≤ total_assets
    pub deducts : div_up a half_slope ≡ ok deduct
    pub squares : square (total_shares + offset) ≡ ok squared
    pub enough : deduct ≤ squared
    pub roots : sqrt_ud60x18 r (squared - deduct) ≡ ok root
    pub shares : sh + root ≡ total_shares + offset

  pub preview_withdraw-Withdraws :
      (a : ℕ) {sh : ℕ} → preview_withdraw r c a s ≡ ok sh → Withdraws a sh
  unfolding preview_withdraw check_curve_domains check_withdraw add sub
  preview_withdraw-Withdraws a h = ground arith

  -- The steps of a redemption, put together.
  pub preview_redeem_of :
      (sh a upper lower : ℕ)
      → total_assets ≤ max_assets
      → total_shares ≤ max_shares
      → sh ≤ total_shares
      → total_shares + offset ≤ u256_max
      → square (total_shares + offset) ≡ ok upper
      → square (total_shares + offset - sh) ≡ ok lower
      → lower ≤ upper
      → mul_div (upper - lower) half_slope unit ≡ ok a
      → preview_redeem r c sh s ≡ ok a
  unfolding preview_redeem check_curve_domains check_redeem add sub
  preview_redeem_of sh a upper lower ha hs held f u l o p = ground arith
