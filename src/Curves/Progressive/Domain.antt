-- ===== src/Curves/Progressive/Domain.antt =====
-- The domain that `OffsetProgressiveCurve::new` computes, and that it is large enough: no quote in
-- it overflows by its squares.
use native.Mathlib.Nat.{mul-le-mul}
use native.Mathlib.Decide.{dec_le}
use intuition_core.Base.{ℕ, ◌+◌, ◌-◌, ◌*◌, ◌/◌, ◌≤◌, ◌<◌, ◌≡◌, ◌↔◌, ok, arith}
use intuition_core.Curves.Math.{CurveState, FloorSqrt, u256_max, unit, sqrt_ud60x18, from_big, sub}
use intuition_core.Curves.Rounding.{mul_div_fits, sqrt_ud60x18-ok}
use intuition_core.Curves.Progressive.{OffsetProgressiveCurve, new, preview_redeem}
use intuition_core.Curves.Progressive.Quotes.{
  square-IsFloor, preview_redeem_of, preview_redeem-Redeems,
}
use intuition_core.Curves.Progressive.RoundTrip.{square_fits, square_mono}

-- What `new` has established of a curve.
pub record Built (r : FloorSqrt) (slope offset : ℕ) (c : OffsetProgressiveCurve) : Type 0 where
  pub slope_kept : c.slope ≡ slope
  pub offset_kept : c.offset ≡ offset
  pub half : c.slope ≡ 2 * c.half_slope
  pub positive : 0 < c.half_slope
  pub root : sqrt_ud60x18 r (u256_max / unit) ≡ ok (c.max_shares + c.offset)

pub new-Built :
    (r : FloorSqrt) (slope offset : ℕ) {c : OffsetProgressiveCurve}
    → new r slope offset ≡ ok c
    → Built r slope offset c
unfolding new from_big sub
new-Built r slope offset h = ground arith

-- Within the largest supply the offset supply squares into a word.
supply_square :
    (r : FloorSqrt) (slope offset : ℕ) (c : OffsetProgressiveCurve)
    → Built r slope offset c
    → (n : ℕ) → n ≤ c.max_shares
    → (n + c.offset) * (n + c.offset) ≤ u256_max
supply_square r slope offset c b n h =
    let (low, _, _) = sqrt_ud60x18-ok r (u256_max / unit) b.root in
    let le : n + c.offset ≤ c.max_shares + c.offset = omega arith in
    omega (arith, mul-le-mul le le, low)

word_of_square : (x : ℕ) → x * x ≤ u256_max → x ≤ u256_max
word_of_square x h = elim (dec_le x u256_max) [
  | yes le ↦ le
  | no lt ↦
      let over : u256_max + 1 ≤ x = omega arith in absurd (omega (arith, mul-le-mul over over, h))
]

abbrev pub InDomain : OffsetProgressiveCurve → CurveState → Type 0
InDomain c s = (s.total_assets ≤ c.max_assets) × (s.total_shares ≤ c.max_shares)

-- On a curve that `new` built with a slope of at most 2 · 10^36, a redemption succeeds exactly on
-- the states of the curve's domain that hold the shares: it neither overflows nor underflows there.
pub new-preview_redeem :
    (r : FloorSqrt) (slope offset : ℕ) (c : OffsetProgressiveCurve) (s : CurveState) (sh : ℕ)
    → new r slope offset ≡ ok c
    → slope ≤ 2 * (unit * unit)
    → ((a : ℕ) × (preview_redeem r c sh s ≡ ok a)) ↔ (InDomain c s × (sh ≤ s.total_shares))
new-preview_redeem r slope offset c s sh e gentle = (back, forth)
  where
    open s use {total_assets, total_shares}

    back : (a : ℕ) × (preview_redeem r c sh s ≡ ok a) → InDomain c s × (sh ≤ total_shares)
    back (a, h) = let d = preview_redeem-Redeems r c s sh h in ((d.in_assets, d.in_shares), d.held)

    forth : InDomain c s × (sh ≤ total_shares) → (a : ℕ) × (preview_redeem r c sh s ≡ ok a)
    forth ((ha, hs), held) =
        let b = new-Built r slope offset e in
        let x : ℕ = total_shares + c.offset in
        let y : ℕ = total_shares + c.offset - sh in
        let small = supply_square r slope offset c b total_shares hs in
        let lower_than : y ≤ x = omega arith in
        let (upper, upper_is, _) = square_fits x u256_max (omega (arith, small)) (omega arith) in
        let (lower, lower_is, _) =
          square_fits y u256_max (omega (arith, small, mul-le-mul lower_than lower_than))
            (omega arith) in
        let ordered = square_mono y x lower_than lower_is upper_is in
        let area : upper - lower ≤ upper = omega arith in
        let slow : c.half_slope ≤ unit * unit = omega (arith, b.half, b.slope_kept) in
        let (a, pays, _) =
          mul_div_fits (upper - lower) c.half_slope unit u256_max (omega arith)
            (omega (arith, mul-le-mul area slow, (square-IsFloor x upper_is).below, small))
            (omega arith) in
        (
          a,
          preview_redeem_of r c s sh a upper lower ha hs held (word_of_square x small) upper_is
              lower_is ordered pays,
        )
