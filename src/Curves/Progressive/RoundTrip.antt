-- ===== src/Curves/Progressive/RoundTrip.antt =====
-- The rounding of crates/curves/src/offset_progressive.rs always favours the vault.
use native.Mathlib.Nat.{mul-le-mul, mul-le-mul_right}
use native.Mathlib.Decide.{dec_le}
use intuition_core.Base.{ℕ, ◌+◌, ◌-◌, ◌*◌, ◌≤◌, ◌<◌, ◌≡◌, subst, ok, arith}
use intuition_core.Curves.Math.{CurveState, FloorSqrt, u256_max, unit, square}
use intuition_core.Curves.Rounding.{mul_div-IsFloor, mul_div_fits, sqrt_ud60x18-ok, le_of_lt_mul}
use intuition_core.Curves.Trait.{after_deposit}
use intuition_core.Curves.Progressive.{
  OffsetProgressiveCurve, preview_deposit, preview_mint, preview_withdraw, preview_redeem,
}
use intuition_core.Curves.Progressive.Quotes.{
  square-IsFloor, square_up-IsCeil, mul_up-IsCeil, div_up-IsCeil, preview_deposit-Deposits,
  preview_redeem-Redeems, preview_mint-Mints, preview_withdraw-Withdraws, preview_redeem_of,
}

pub square_fits :
    (x b : ℕ) → x * x ≤ b * unit → b ≤ u256_max → (q : ℕ) × (square x ≡ ok q) × (q ≤ b)
unfolding square
square_fits x b h f = mul_div_fits x x unit b (omega arith) h f

-- Rounded-down squares keep the order.
pub square_mono : (x y : ℕ) {p q : ℕ} → x ≤ y → square x ≡ ok p → square y ≡ ok q → p ≤ q
square_mono x y {p} {q} h ex ey =
    let fx = square-IsFloor x ex in
    let fy = square-IsFloor y ey in
    le_of_lt_mul p q unit (omega (arith, fx.below, fy.above, mul-le-mul h h))

-- A root taken below a bound has a square of at most that bound.
root_square : (v b : ℕ) {q : ℕ} → v * v ≤ b * unit → square v ≡ ok q → q ≤ b
root_square v b {q} h e =
    let f = square-IsFloor v e in le_of_lt_mul q b unit (omega (arith, f.below, h))

le_of_square : (x y : ℕ) → x * x < (y + 1) * (y + 1) → x ≤ y
le_of_square x y h = elim (dec_le x y) [
  | yes le ↦ le
  | no lt ↦ let over : y + 1 ≤ x = omega arith in absurd (omega (arith, mul-le-mul over over))
]

module _ (r : FloorSqrt) (c : OffsetProgressiveCurve) (s : CurveState) where
  open s use {total_assets, total_shares}

  -- A deposit that is redeemed at once never returns more than was put in, and the redemption does
  -- not fail.
  pub progressive_deposit-redeem_le :
      (a sh : ℕ)
      → a ≤ u256_max
      → preview_deposit r c a s ≡ ok sh
      → (b : ℕ) × (preview_redeem r c sh (after_deposit a sh s) ≡ ok b) × (b ≤ a)
  progressive_deposit-redeem_le a sh word h =
      let d = preview_deposit-Deposits r c s a h in
      let (root_low, root_high, root_fits) = sqrt_ud60x18-ok r (d.squared + d.bought) d.roots in
      let (upper, upper_is, upper_le) = square_fits d.root (d.squared + d.bought) root_low d.fits in
      let bought = mul_div-IsFloor a unit c.half_slope d.buys in
      let raised : d.squared ≤ upper =
        square_mono (total_shares + c.offset) d.root (omega (arith, d.shares)) d.squares upper_is in
      let (b, pays, le) =
        mul_div_fits (upper - d.squared) c.half_slope unit a (omega arith)
          (omega (
            arith,
            mul-le-mul_right c.half_slope
                (let l : upper - d.squared ≤ d.bought = omega (arith, upper_le) in l),
            bought.below,
          ))
          word in
      (
        b,
        preview_redeem_of r c (after_deposit a sh s) sh b upper d.squared d.room_assets
            d.room_shares (omega arith) (omega (arith, d.shares, root_fits))
            (subst (λ x. square x ≡ ok upper) (omega (arith, d.shares)) upper_is)
            (subst (λ x. square x ≡ ok d.squared) (omega arith) d.squares) raised pays,
        le,
      )

  -- Paying the quoted price of a mint into a deposit yields at least the shares that were quoted.
  pub progressive_mint-deposit_le :
      (sh a sh' : ℕ) → preview_mint r c sh s ≡ ok a → preview_deposit r c a s ≡ ok sh' → sh ≤ sh'
  progressive_mint-deposit_le sh a sh' m h =
      let p = preview_mint-Mints r c s sh m in
      let d = preview_deposit-Deposits r c s a h in
      let price = mul_up-IsCeil (p.upper - p.lower) c.half_slope p.costs in
      let bought = mul_div-IsFloor a unit c.half_slope d.buys in
      let same : p.lower ≡ d.squared = cc (p.lower_squares, d.squares) in
      let area : p.upper - p.lower ≤ d.bought =
        le_of_lt_mul (p.upper - p.lower) d.bought c.half_slope
          (omega (arith, price.above, bought.above)) in
      let aimed = square_up-IsCeil (total_shares + c.offset + sh) p.upper_squares in
      let (_, root_high, _) = sqrt_ud60x18-ok r (d.squared + d.bought) d.roots in
      let reached : total_shares + c.offset + sh ≤ d.root =
        le_of_square (total_shares + c.offset + sh) d.root
          (omega (arith, aimed.above, root_high, area, same, p.ordered)) in
      omega (arith, reached, d.shares)

  -- Redeeming the shares quoted for a withdrawal pays at least the assets that were asked for.
  pub progressive_withdraw-redeem_le :
      (a sh a' : ℕ) → preview_withdraw r c a s ≡ ok sh → preview_redeem r c sh s ≡ ok a' → a ≤ a'
  progressive_withdraw-redeem_le a sh a' m h =
      let w = preview_withdraw-Withdraws r c s a m in
      let d = preview_redeem-Redeems r c s sh h in
      let (root_low, _, _) = sqrt_ud60x18-ok r (w.squared - w.deduct) w.roots in
      let deducted = div_up-IsCeil a c.half_slope w.deducts in
      let paid = mul_div-IsFloor (d.upper - d.lower) c.half_slope unit d.pays in
      let same : d.upper ≡ w.squared = cc (d.upper_squares, w.squares) in
      let left : total_shares + c.offset - sh ≡ w.root = omega (arith, w.shares) in
      let low : d.lower ≤ w.squared - w.deduct =
        root_square w.root (w.squared - w.deduct) root_low
          (subst (λ x. square x ≡ ok d.lower) left d.lower_squares) in
      let area : w.deduct ≤ d.upper - d.lower = omega (arith, low, same, w.enough) in
      le_of_lt_mul a a' unit
        (omega (arith, deducted.above, mul-le-mul_right c.half_slope area, paid.above))
