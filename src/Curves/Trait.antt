-- ===== src/Curves/Trait.antt =====
-- crates/curves/src/traits.rs: the interface that the fee quotes are generic in.
use intuition_core.Base.{ℕ, ◌+◌}
use intuition_core.Curves.Math.{Checked, CurveState}

pub record Curve : Type 0 where
  pub max_shares : ℕ
  pub max_assets : ℕ
  pub preview_deposit : ℕ → CurveState → Checked ℕ
  pub preview_mint : ℕ → CurveState → Checked ℕ
  pub preview_withdraw : ℕ → CurveState → Checked ℕ
  pub preview_redeem : ℕ → CurveState → Checked ℕ
  pub convert_to_shares : ℕ → CurveState → Checked ℕ
  pub convert_to_assets : ℕ → CurveState → Checked ℕ
  pub current_price : CurveState → Checked ℕ

-- The vault's totals once a deposit of `assets` for `shares` is booked.
abbrev pub after_deposit : ℕ → ℕ → CurveState → CurveState
after_deposit assets shares state = record {
  total_assets = state.total_assets + assets;
  total_shares = state.total_shares + shares;
}
