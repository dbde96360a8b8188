-- ===== src/Tests/Root.antt =====
-- An integer square root, digit by digit, to stand for `BigUint::sqrt` in the runs.
use intuition_core.Base.{
  ℕ, zero, suc, ◌+◌, ◌*◌, ◌/◌, ◌≤◌, ◌<◌, ◌≡◌, refl, inl, inr, arith, leb, if◌then◌else◌, Bool-cases,
  leb→le, not-leb→lt,
}
use intuition_core.Curves.Math.{FloorSqrt}

-- The next digit of the root of n, after twice the root of n / 4.
abbrev pub digit : ℕ → ℕ → ℕ
digit n r = if leb ((r + 1) * (r + 1)) n then r + 1 else r

-- The fuel n is enough, since n / 4 is smaller.
abbrev pub isqrt : ℕ → ℕ → ℕ
isqrt zero n = 0
isqrt (suc fuel) zero = 0
isqrt (suc fuel) (suc m) = digit (suc m) (2 * isqrt fuel (suc m / 4))

abbrev pub IsRoot : ℕ → ℕ → Type 0
IsRoot n r = (r * r ≤ n) × (n < (r + 1) * (r + 1))

pub digit-IsRoot : (n r : ℕ) → IsRoot (n / 4) r → IsRoot n (digit n (2 * r))
digit-IsRoot n r (low, high) = elim (Bool-cases (leb ((2 * r + 1) * (2 * r + 1)) n)) [
  | inl y ↦ rw y (leb→le _ _ y, omega (arith, high))
  | inr o ↦ rw o (omega (arith, low), not-leb→lt _ _ o)
]

pub isqrt-IsRoot : (fuel n : ℕ) → n ≤ fuel → IsRoot n (isqrt fuel n)
isqrt-IsRoot zero n h = (omega arith, omega arith)
isqrt-IsRoot (suc fuel) zero h = (omega arith, omega arith)
isqrt-IsRoot (suc fuel) (suc m) h =
    digit-IsRoot (suc m) (isqrt fuel (suc m / 4)) (isqrt-IsRoot fuel (suc m / 4) (omega arith))

abbrev pub root : FloorSqrt
root = record {
  sqrt = λ n. isqrt n n;
  lower = λ n. (isqrt-IsRoot n n (omega arith)).0;
  upper = λ n. (isqrt-IsRoot n n (omega arith)).1;
}

root_10_36 : root.sqrt 1000000000000000000000000000000000000 ≡ 1000000000000000000
root_10_36 = refl
