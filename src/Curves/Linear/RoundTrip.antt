-- ===== src/Curves/Linear/RoundTrip.antt =====
-- The rounding of crates/curves/src/linear.rs always favours the vault.
use intuition_core.Base.{
  ℕ, ◌+◌, ◌*◌, ◌≤◌, ◌<◌, ◌≡◌, ok, arith, inl, inr, Bool-cases, ◌==◌, neqb→pos, eqb→eq,
}
use intuition_core.Curves.Math.{
  CurveState, u256_max, check_curve_domains, check_deposit_bounds, check_deposit_out,
  check_mint_bounds, check_mint_out, check_withdraw, check_redeem,
}
use intuition_core.Curves.Rounding.{
  IsFloor, IsCeil, mul_div-IsFloor, mul_div_up-IsCeil, mul_div_fits, le_of_lt_mul,
}
use intuition_core.Curves.Trait.{after_deposit}
use intuition_core.Curves.Linear.{
  convert_to_shares_unchecked, convert_to_assets_unchecked, preview_deposit, preview_mint,
  preview_withdraw, preview_redeem,
}

module _ (s : CurveState) where
  open s use {total_assets, total_shares}

  -- What a successful deposit quote has checked.
  record Deposits (a sh : ℕ) : Type 0 where
    pub room_assets : total_assets + a ≤ u256_max
    pub room_shares : total_shares + sh ≤ u256_max
    pub converts : convert_to_shares_unchecked a s ≡ ok sh

  preview_deposit-Deposits : (a : ℕ) {sh : ℕ} → preview_deposit a s ≡ ok sh → Deposits a sh
  unfolding preview_deposit check_curve_domains check_deposit_bounds check_deposit_out
  preview_deposit-Deposits a h = ground arith

  record Mints (sh a : ℕ) : Type 0 where
    pub first : total_shares ≡ 0 → a ≡ sh
    pub later : 0 < total_shares → IsCeil (sh * total_assets) total_shares a

  preview_mint-Mints : (sh : ℕ) {a : ℕ} → preview_mint sh s ≡ ok a → Mints sh a
  unfolding preview_mint check_curve_domains check_mint_bounds check_mint_out
  preview_mint-Mints sh {a} h =
      ground (arith, mul_div_up-IsCeil sh total_assets total_shares {q = a})

  record Withdraws (a sh : ℕ) : Type 0 where
    pub first : total_shares ≡ 0 → sh ≡ a
    pub later : 0 < total_shares → IsCeil (a * total_shares) total_assets sh

  preview_withdraw-Withdraws : (a : ℕ) {sh : ℕ} → preview_withdraw a s ≡ ok sh → Withdraws a sh
  unfolding preview_withdraw check_curve_domains check_withdraw
  preview_withdraw-Withdraws a {sh} h =
      ground (arith, mul_div_up-IsCeil a total_shares total_assets {q = sh})

  record ToShares (a sh : ℕ) : Type 0 where
    pub first : total_shares ≡ 0 → sh ≡ a
    pub later : 0 < total_shares → IsFloor (a * total_shares) total_assets sh

  convert-ToShares : (a : ℕ) {sh : ℕ} → convert_to_shares_unchecked a s ≡ ok sh → ToShares a sh
  unfolding convert_to_shares_unchecked
  convert-ToShares a {sh} h = ground (arith, mul_div-IsFloor a total_shares total_assets {q = sh})

  record ToAssets (sh a : ℕ) : Type 0 where
    pub first : total_shares ≡ 0 → a ≡ sh
    pub later : 0 < total_shares → IsFloor (sh * total_assets) total_shares a

  preview_redeem-ToAssets : (sh : ℕ) {a : ℕ} → preview_redeem sh s ≡ ok a → ToAssets sh a
  unfolding preview_redeem convert_to_assets_unchecked check_curve_domains check_redeem
  preview_redeem-ToAssets sh {a} h =
      ground (arith, mul_div-IsFloor sh total_assets total_shares {q = a})

  -- Shares worth at most `a` by the vault's ratio redeem, for at most `a`.
  redeem_le :
      (sh a : ℕ)
      → total_assets ≤ u256_max
      → total_shares ≤ u256_max
      → sh ≤ total_shares
      → a ≤ u256_max
      → sh * total_assets ≤ a * total_shares
      → (b : ℕ) × (preview_redeem sh s ≡ ok b) × (b ≤ a)
  unfolding preview_redeem convert_to_assets_unchecked check_curve_domains check_redeem
  redeem_le sh a ha hs hsh hb p = elim (Bool-cases (total_shares == 0)) [
    | inl e ↦ (sh, ground arith, ground arith)
    | inr e ↦
        let (b, q, l) = mul_div_fits sh total_assets total_shares a (neqb→pos _ e) p hb in
        (b, ground arith, l)
  ]

-- A deposit that is redeemed at once never returns more than was put in, and the redemption does
-- not fail, unless the vault held assets without shares.
pub linear_deposit-redeem_le :
    (s : CurveState) (a sh : ℕ)
    → (s.total_shares ≡ 0 → s.total_assets ≡ 0)
    → preview_deposit a s ≡ ok sh
    → (b : ℕ) × (preview_redeem sh (after_deposit a sh s) ≡ ok b) × (b ≤ a)
linear_deposit-redeem_le s a sh empty h =
    let d = preview_deposit-Deposits s a h in
    let c = convert-ToShares s a d.converts in
    redeem_le (after_deposit a sh s) sh a d.room_assets d.room_shares (omega arith)
      (omega (arith, d.room_assets)) (worth d c)
  where
    worth :
        Deposits s a sh → ToShares s a sh → sh * (s.total_assets + a) ≤ a * (s.total_shares + sh)
    worth d c = elim (Bool-cases (s.total_shares == 0)) [
      | inl e ↦
          let none_held : s.total_shares ≡ 0 = eqb→eq _ _ e in
          let nothing_held : s.total_assets ≡ 0 = empty none_held in
          rw (none_held, nothing_held, c.first none_held) (omega arith)
      | inr e ↦ omega (arith, (c.later (neqb→pos _ e)).below)
    ]

-- Paying the quoted price of a mint into a deposit yields at least the shares that were quoted.
pub linear_mint-deposit_le :
    (s : CurveState) (sh a sh' : ℕ)
    → preview_mint sh s ≡ ok a
    → preview_deposit a s ≡ ok sh'
    → sh ≤ sh'
linear_mint-deposit_le s sh a sh' m h =
    let p = preview_mint-Mints s sh m in
    let c = convert-ToShares s a (preview_deposit-Deposits s a h).converts in
    elim (Bool-cases (s.total_shares == 0)) [
      | inl e ↦ ground arith
      | inr e ↦
          let up = p.later (neqb→pos _ e) in
          let down = c.later (neqb→pos _ e) in
          le_of_lt_mul sh sh' s.total_assets (omega (arith, up.above, down.above))
    ]

-- Redeeming the shares quoted for a withdrawal pays at least the assets that were asked for.
pub linear_withdraw-redeem_le :
    (s : CurveState) (a sh a' : ℕ)
    → preview_withdraw a s ≡ ok sh
    → preview_redeem sh s ≡ ok a'
    → a ≤ a'
linear_withdraw-redeem_le s a sh a' m h =
    let p = preview_withdraw-Withdraws s a m in
    let c = preview_redeem-ToAssets s sh h in
    elim (Bool-cases (s.total_shares == 0)) [
      | inl e ↦ ground arith
      | inr e ↦
          let up = p.later (neqb→pos _ e) in
          let down = c.later (neqb→pos _ e) in
          le_of_lt_mul a a' s.total_shares (omega (arith, up.above, down.above))
    ]
