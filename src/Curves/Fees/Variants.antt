-- ===== src/Curves/Fees/Variants.antt =====
-- The deposit quotes of crates/curves/src/fees.rs against one another.
use native.Mathlib.Nat.{zero-mod, zero-div, mul-zero}
use intuition_core.Base.{Result-cases, inl, inr, ℕ, ◌≡◌, Bool, false, ok, arith}
use intuition_core.Curves.Math.{CurveState, add, sub, fee_on_raw}
use intuition_core.Curves.Trait.{Curve}
use intuition_core.Curves.Fees.{
  FeeSchedule, TripleFees, preview_deposit_with_fees, preview_atom_deposit, preview_triple_deposit,
}

fee_on_raw-zero :
    (a fee denominator : ℕ) {q : ℕ}
    → fee_on_raw a fee denominator ≡ ok q
    → fee_on_raw a 0 denominator ≡ ok 0
unfolding fee_on_raw
fee_on_raw-zero a fee denominator h =
    ground (arith, zero-mod denominator, zero-div denominator, mul-zero a)

module _ (curve : Curve) (a : ℕ) (s : CurveState) (f : FeeSchedule) (entry : Bool) where
  -- With no wallet fee, and without the share for the atoms, an atom deposit and a triple deposit are
  -- quoted as a basic deposit is, its errors included.
  pub deposits_agree :
      (g : TripleFees)
      → (preview_atom_deposit curve a s f (record { atom_wallet_deposit_fee = 0 }) entry
          ≡ preview_deposit_with_fees curve a s f entry)
        × (preview_triple_deposit curve a s f g entry false
            ≡ preview_deposit_with_fees curve a s f entry)
  unfolding preview_atom_deposit preview_triple_deposit preview_deposit_with_fees add sub
  deposits_agree g = elim (Result-cases (fee_on_raw a f.protocol_fee f.denominator)) [
    | inl (p, e) ↦
        let free = fee_on_raw-zero a f.protocol_fee f.denominator e in (ground arith, ground arith)
    | inr (x, e) ↦ (ground arith, ground arith)
  ]
