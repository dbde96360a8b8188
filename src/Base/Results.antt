-- ===== src/Base/Results.antt =====
-- Rust's `Result<A, E>`; the `?` operator is `>>=`, and `>>` is `?` on a `Result<(), E>`.
use mathlib.Core.Path.{◌≡◌, refl}
use mathlib.Core.Logic.{◌⊎◌, inl, inr}

pub data Result {ε ℓ} (E : Type ε) (A : Type ℓ) : Type (ε ⊔ ℓ) where
  err : E → Result E A
  ok : A → Result E A

module _ {ε κ} {E : Type ε} {B : Type κ} where
  infixl 5 ◌>>◌ ◌>>=◌
  abbrev pub ◌>>=◌ {ℓ} : {A : Type ℓ} (first : Result E A) (rest : A → Result E B) → Result E B
  err problem >>= rest = err problem
  ok value >>= rest = rest value

  abbrev pub ◌>>◌ : (test : Result E (Unit {0})) (rest : Result E B) → Result E B
  err problem >> rest = err problem
  ok tt >> rest = rest

pub Result-cases {ε ℓ} :
    {E : Type ε} {A : Type ℓ} (r : Result E A)
    → ((value : A) × (r ≡ ok value)) ⊎ ((problem : E) × (r ≡ err problem))
Result-cases (err problem) = inr (problem, refl)
Result-cases (ok value) = inl (value, refl)
