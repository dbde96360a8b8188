-- ===== src/Curves/Rounding.antt =====
-- What the rounding helpers of crates/curves/src/math.rs return, and when they succeed.
use native.Mathlib.Nat.{div-mul-le_self, lt-div-mul-add, div-add-mod', div-le_of_le-mul}
use intuition_core.Base.{
  ℕ, ◌+◌, ◌-◌, ◌*◌, ◌/◌, ◌≤◌, ◌<◌, ◌≡◌, ◌%◌, arith, ok, inl, inr, ◌==◌, eqb→eq, Bool-cases,
  neqb→pos,
}
use intuition_core.Curves.Math.{
  u256_max, unit, add, sub, mul_div, mul_div_up, ceil_div, FloorSqrt, sqrt_ud60x18,
}

-- `q` is `p / d` rounded down, in a word.
pub record IsFloor (p d q : ℕ) : Type 0 where
  pub positive : 0 < d
  pub below : q * d ≤ p
  pub above : p < q * d + d
  pub fits : q ≤ u256_max

-- `q` is `p / d` rounded up, in a word.
pub record IsCeil (p d q : ℕ) : Type 0 where
  pub positive : 0 < d
  pub above : p ≤ q * d
  pub below : q * d < p + d
  pub fits : q ≤ u256_max

pub add-ok : (a b : ℕ) {c : ℕ} → add a b ≡ ok c → (c ≡ a + b) × (c ≤ u256_max)
unfolding add
add-ok a b h = ground arith

pub sub-ok : (a b : ℕ) {c : ℕ} → sub a b ≡ ok c → (b ≤ a) × (c ≡ a - b)
unfolding sub
sub-ok a b h = ground arith

pub add_fits : (a b : ℕ) → a + b ≤ u256_max → add a b ≡ ok (a + b)
unfolding add
add_fits a b h = ground arith

pub sub_fits : (a b : ℕ) → b ≤ a → sub a b ≡ ok (a - b)
unfolding sub
sub_fits a b h = ground arith

pub div-IsFloor : (p d : ℕ) → 0 < d → (p / d * d ≤ p) × (p < p / d * d + d)
div-IsFloor p d h = (div-mul-le_self p d, lt-div-mul-add h)

ceil_div_bounds : (p d : ℕ) → 0 < d → (p ≤ ceil_div p d * d) × (ceil_div p d * d < p + d)
ceil_div_bounds p d h = elim (Bool-cases (p % d == 0)) [
  | inl e ↦ rw e (omega (arith, div-add-mod' p d, eqb→eq _ _ e, div-IsFloor p d h))
  | inr e ↦ rw e (
    omega (arith, div-add-mod' p d, div-IsFloor p d h, neqb→pos _ e),
    omega (arith, div-add-mod' p d, div-IsFloor p d h, neqb→pos _ e),
  )
]

pub div_le : (p d b : ℕ) → p ≤ b * d → p / d ≤ b
div_le p d b h = div-le_of_le-mul d (omega arith)

pub mul_div-IsFloor : (x y d : ℕ) {q : ℕ} → mul_div x y d ≡ ok q → IsFloor (x * y) d q
unfolding mul_div
mul_div-IsFloor x y d h = ground (arith, div-IsFloor (x * y) d)

pub mul_div_up-IsCeil : (x y d : ℕ) {q : ℕ} → mul_div_up x y d ≡ ok q → IsCeil (x * y) d q
unfolding mul_div_up
mul_div_up-IsCeil x y d h = ground (arith, ceil_div_bounds (x * y) d)

-- A product of at most `b` times the divisor divides into a word that is at most `b`.
pub mul_div_fits :
    (x y d b : ℕ)
    → 0 < d
    → x * y ≤ b * d
    → b ≤ u256_max
    → (q : ℕ) × (mul_div x y d ≡ ok q) × (q ≤ b)
unfolding mul_div
mul_div_fits x y d b p h f = (x * y / d, ground (arith, div_le (x * y) d b h), div_le (x * y) d b h)

pub sqrt_ud60x18-ok :
    (r : FloorSqrt) (raw : ℕ) {v : ℕ}
    → sqrt_ud60x18 r raw ≡ ok v
    → (v * v ≤ raw * unit) × (raw * unit < (v + 1) * (v + 1)) × (v ≤ u256_max)
unfolding sqrt_ud60x18
sqrt_ud60x18-ok r raw h = ground (arith, r.lower (raw * unit), r.upper (raw * unit))

-- Cancels a divisor from two bounds on the same product.
pub le_of_lt_mul : (a b d : ℕ) → a * d < b * d + d → a ≤ b
le_of_lt_mul a b d h = grind arith
