-- ===== src/Curves/Math.antt =====
-- crates/curves/src/errors.rs, types.rs and math.rs: 256-bit words and the checked helpers on them.
use intuition_core.Base.{
  ℕ, ◌+◌, ◌-◌, ◌*◌, ◌/◌, ◌%◌, ◌^◌, ◌≤◌, ◌<◌, Result, ok, err, leb, ltb, ◌==◌, if◌then◌else◌,
}

pub data CurveError : Type 0 where
  invalid_slope assets_exceed_total_assets shares_exceed_total_shares : CurveError
  assets_overflow_max shares_overflow_max domain_exceeded : CurveError
  division_by_zero math_overflow math_underflow : CurveError

-- `Result<_, CurveError>`.
abbrev pub Checked : Type 0 → Type 0
Checked A = Result CurveError A

-- `U256` is a number up to `u256_max`.
abbrev pub u256_max : ℕ
u256_max = 2 ^ 256 - 1

pub record CurveState : Type 0 where
  pub total_assets : ℕ
  pub total_shares : ℕ

abbrev pub unit : ℕ
unit = 1_000_000_000_000_000_000

unfoldable pub from_big : ℕ → Checked ℕ
from_big value = if ltb u256_max value then err math_overflow else ok value

unfoldable pub add : ℕ → ℕ → Checked ℕ
add a b = if leb (a + b) u256_max then ok (a + b) else err math_overflow

unfoldable pub sub : ℕ → ℕ → Checked ℕ
sub a b = if leb b a then ok (a - b) else err math_underflow

unfoldable pub mul_div : ℕ → ℕ → ℕ → Checked ℕ
unfolding from_big
mul_div x y denominator =
    if denominator == 0 then err division_by_zero else from_big (x * y / denominator)

-- The rounded quotient of `mul_div_up`.
abbrev pub ceil_div : ℕ → ℕ → ℕ
ceil_div p d = if p % d == 0 then p / d else p / d + 1

unfoldable pub mul_div_up : ℕ → ℕ → ℕ → Checked ℕ
unfolding from_big
mul_div_up x y denominator =
    if denominator == 0 then err division_by_zero else from_big (ceil_div (x * y) denominator)

-- `BigUint::sqrt` of num-bigint: the integer square root, rounded down.
pub record FloorSqrt : Type 0 where
  pub sqrt : ℕ → ℕ
  pub lower : (n : ℕ) → sqrt n * sqrt n ≤ n
  pub upper : (n : ℕ) → n < (sqrt n + 1) * (sqrt n + 1)

unfoldable pub sqrt_ud60x18 : FloorSqrt → ℕ → Checked ℕ
unfolding from_big
sqrt_ud60x18 r raw = from_big (r.sqrt (raw * unit))

unfoldable pub square : ℕ → Checked ℕ
unfolding mul_div
square x = mul_div x x unit

unfoldable pub square_up : ℕ → Checked ℕ
unfolding mul_div_up
square_up x = mul_div_up x x unit

unfoldable pub mul_up : ℕ → ℕ → Checked ℕ
unfolding mul_div_up
mul_up x y = mul_div_up x y unit

unfoldable pub div_up : ℕ → ℕ → Checked ℕ
unfolding mul_div_up
div_up x y = mul_div_up x unit y

unfoldable pub fee_on_raw : ℕ → ℕ → ℕ → Checked ℕ
unfolding mul_div_up
fee_on_raw amount fee denominator = mul_div_up amount fee denominator

unfoldable pub market_cap : ℕ → ℕ → Checked ℕ
unfolding mul_div
market_cap total_shares share_price = mul_div total_shares share_price unit

unfoldable pub check_curve_domains : ℕ → ℕ → ℕ → ℕ → Checked (Unit {0})
check_curve_domains total_assets total_shares max_assets max_shares =
    if ltb max_assets total_assets
    then err domain_exceeded
    else if ltb max_shares total_shares
    then err domain_exceeded
    else ok tt

unfoldable pub check_withdraw : ℕ → ℕ → Checked (Unit {0})
check_withdraw assets total_assets =
    if ltb total_assets assets then err assets_exceed_total_assets else ok tt

unfoldable pub check_redeem : ℕ → ℕ → Checked (Unit {0})
check_redeem shares total_shares =
    if ltb total_shares shares then err shares_exceed_total_shares else ok tt

-- `max.checked_sub(total).ok_or(DomainExceeded)?`, then the test of what is left.
check_room : ℕ → ℕ → ℕ → CurveError → Checked (Unit {0})
check_room amount total max e =
    if leb total max then if ltb (max - total) amount then err e else ok tt else err domain_exceeded

unfoldable pub check_deposit_bounds : ℕ → ℕ → ℕ → Checked (Unit {0})
unfolding check_room
check_deposit_bounds assets total_assets max_assets =
    check_room assets total_assets max_assets assets_overflow_max

unfoldable pub check_deposit_out : ℕ → ℕ → ℕ → Checked (Unit {0})
unfolding check_room
check_deposit_out shares_out total_shares max_shares =
    check_room shares_out total_shares max_shares shares_overflow_max

unfoldable pub check_mint_bounds : ℕ → ℕ → ℕ → Checked (Unit {0})
unfolding check_room
check_mint_bounds shares total_shares max_shares =
    check_room shares total_shares max_shares shares_overflow_max

unfoldable pub check_mint_out : ℕ → ℕ → ℕ → Checked (Unit {0})
unfolding check_room
check_mint_out assets_out total_assets max_assets =
    check_room assets_out total_assets max_assets assets_overflow_max
