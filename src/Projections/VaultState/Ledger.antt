-- ===== src/Projections/VaultState/Ledger.antt =====
-- The totals of a vault under the statements of crates/projections/src/repo/vault_repo.rs, which
-- kg_market_repo.rs has too.
use intuition_core.Base.{
  ◌≡◌, refl, sym, ◌∙◌, inl, inr, true, false, Bool-cases, Option, none, some, List, [], ◌∷◌, ◌++◌,
  if◌then◌else◌, ℤ, pos, ◌+ℤ◌, int_laws, pair_eq, text_eq, subst, ap, parts_of_eq, find,
  find-upsert_other, find-upsert_same,
}
use intuition_core.Projections.Tables.{
  Vault, VaultKey, Vaults, Price, upsert_vault_on_deposit, upsert_vault_on_redeem,
  update_vault_price,
}

-- What an event changes of a vault.
pub data Change : Type 0 where
  deposit : ℤ → Change
  redemption : ℤ → Change
  priced : Price → Change

-- The vault, the block's time and the change.
abbrev pub Entry : Type 0 → Type 0
Entry Time = VaultKey × Time × Change

unfoldable pub enter : {Time : Type 0} → Time → Vaults Time → Entry Time → Vaults Time
unfolding upsert_vault_on_deposit upsert_vault_on_redeem update_vault_price
enter now vaults (key, at, deposit amount) = upsert_vault_on_deposit now vaults key amount at
enter now vaults (key, at, redemption amount) = upsert_vault_on_redeem now vaults key amount at
enter now vaults (key, at, priced price) = update_vault_price now vaults key price at

unfoldable pub post : {Time : Type 0} → Time → Vaults Time → List (Entry Time) → Vaults Time
unfolding enter
post now vaults [] = vaults
post now vaults (entry ∷ entries) = post now (enter now vaults entry) entries

abbrev pub deposits_of : {Time : Type 0} → Option (Vault Time) → ℤ
deposits_of none = pos 0
deposits_of (some vault) = vault.total_deposits

abbrev pub redemptions_of : {Time : Type 0} → Option (Vault Time) → ℤ
redemptions_of none = pos 0
redemptions_of (some vault) = vault.total_redemptions

abbrev deposit_in : Change → ℤ
deposit_in (deposit amount) = amount
deposit_in (redemption _) = pos 0
deposit_in (priced _) = pos 0

abbrev redemption_in : Change → ℤ
redemption_in (deposit _) = pos 0
redemption_in (redemption amount) = amount
redemption_in (priced _) = pos 0

-- The columns that a price event sets; zero without a row.
abbrev pub price_of : {Time : Type 0} → Option (Vault Time) → Price
price_of none = record {
  total_shares = pos 0;
  share_price = pos 0;
  total_assets = pos 0;
  market_cap = pos 0;
}
price_of (some vault) = record {
  total_shares = vault.total_shares;
  share_price = vault.current_share_price;
  total_assets = vault.total_assets;
  market_cap = vault.market_cap;
}

abbrev priced_by : Price → Change → Price
priced_by price (deposit _) = price
priced_by price (redemption _) = price
priced_by price (priced new_price) = new_price

abbrev uncounted_in : {Time : Type 0} → Option (Vault Time) → Change → ℤ
uncounted_in none change = redemption_in change
uncounted_in (some vault) change = pos 0

module _ {Time : Type 0} where
  unfoldable pub deposited : VaultKey → List (Entry Time) → ℤ
  deposited key [] = pos 0
  deposited key ((k, at, change) ∷ entries) =
      let rest = deposited key entries in
      if pair_eq.same k key then deposit_in change +ℤ rest else rest

  unfoldable pub redeemed : VaultKey → List (Entry Time) → ℤ
  redeemed key [] = pos 0
  redeemed key ((k, at, change) ∷ entries) =
      let rest = redeemed key entries in
      if pair_eq.same k key then redemption_in change +ℤ rest else rest

  -- The price of the last price event of the vault; without one, the price that there was.
  unfoldable pub last_price : Price → VaultKey → List (Entry Time) → Price
  last_price price key [] = price
  last_price price key ((k, at, change) ∷ entries) =
      last_price (if pair_eq.same k key then priced_by price change else price) key entries

  -- The redemption that creates the row, which the statement does not take from the deposits.
  unfoldable pub uncounted : Option (Vault Time) → VaultKey → List (Entry Time) → ℤ
  uncounted (some vault) key entries = pos 0
  uncounted none key [] = pos 0
  uncounted none key ((k, at, change) ∷ entries) =
      let rest = uncounted none key entries in
      if pair_eq.same k key then redemption_in change else rest

  -- The totals and the price before and after a list of entries.
  pub record Balanced (key : VaultKey) (entries : List (Entry Time))
      (before after : Option (Vault Time)) : Type 0 where
    pub deposits :
        deposits_of after +ℤ redeemed key entries
        ≡ deposits_of before +ℤ deposited key entries +ℤ uncounted before key entries
    pub redemptions : redemptions_of after ≡ redemptions_of before +ℤ redeemed key entries
    pub price : price_of after ≡ last_price (price_of before) key entries

  find-enter_other :
      (now : Time) (vaults : Vaults Time) (entry : Entry Time) (key : VaultKey)
      → pair_eq.same entry.0 key ≡ false
      → find (enter now vaults entry) key ≡ find vaults key
  unfolding enter
  find-enter_other now vaults (k, at, deposit amount) key o = find-upsert_other vaults k key _ _ o
  find-enter_other now vaults (k, at, redemption amount) key o =
      find-upsert_other vaults k key _ _ o
  find-enter_other now vaults (k, at, priced price) key o = find-upsert_other vaults k key _ _ o

  -- The row of the vault behind an entry.
  record Entered (row : Option (Vault Time)) (change : Change) (found : Option (Vault Time))
      : Type 0 where
    vault : Vault Time
    is_found : found ≡ some vault
    deposits :
        vault.total_deposits +ℤ redemption_in change
        ≡ deposits_of row +ℤ deposit_in change +ℤ uncounted_in row change
    redemptions : vault.total_redemptions ≡ redemptions_of row +ℤ redemption_in change
    price : price_of (some vault) ≡ priced_by (price_of row) change

  entered :
      {row : Option (Vault Time)} {change : Change} {found : Option (Vault Time)} {v : Vault Time}
      → found ≡ some v
      → v.total_deposits +ℤ redemption_in change
        ≡ deposits_of row +ℤ deposit_in change +ℤ uncounted_in row change
      → v.total_redemptions ≡ redemptions_of row +ℤ redemption_in change
      → price_of (some v) ≡ priced_by (price_of row) change
      → Entered row change found
  entered {v} f d r p = record { vault = v; is_found = f; deposits = d; redemptions = r; price = p }

  find-enter :
      (now : Time) (vaults : Vaults Time) (entry : Entry Time) (key : VaultKey)
      (row : Option (Vault Time))
      → find vaults key ≡ row
      → pair_eq.same entry.0 key ≡ true
      → Entered row entry.2 (find (enter now vaults entry) key)
  unfolding enter
  find-enter now vaults (k, at, deposit amount) key none r y =
      entered (find-upsert_same vaults k key _ _ _ r y) (omega int_laws) (omega int_laws) refl
  find-enter now vaults (k, at, deposit amount) key (some v) r y =
      entered (find-upsert_same vaults k key _ _ _ r y) (omega int_laws) (omega int_laws) refl
  find-enter now vaults (k, at, redemption amount) key none r y =
      entered (find-upsert_same vaults k key _ _ _ r y) (omega int_laws) (omega int_laws) refl
  find-enter now vaults (k, at, redemption amount) key (some v) r y =
      entered (find-upsert_same vaults k key _ _ _ r y) (omega int_laws) (omega int_laws) refl
  find-enter now vaults (k, at, priced price) key none r y =
      entered (find-upsert_same vaults k key _ _ _ r y) (omega int_laws) (omega int_laws) refl
  find-enter now vaults (k, at, priced price) key (some v) r y =
      entered (find-upsert_same vaults k key _ _ _ r y) (omega int_laws) (omega int_laws) refl

  uncounted-some :
      (row : Option (Vault Time)) (key : VaultKey) (entry : Entry Time)
      (entries : List (Entry Time))
      → pair_eq.same entry.0 key ≡ true
      → uncounted row key (entry ∷ entries) ≡ uncounted_in row entry.2
  unfolding uncounted
  uncounted-some none key (k, at, change) entries y = rw y
  uncounted-some (some v) key (k, at, change) entries y = refl

  uncounted-other :
      (row : Option (Vault Time)) (key : VaultKey) (entry : Entry Time)
      (entries : List (Entry Time))
      → pair_eq.same entry.0 key ≡ false
      → uncounted row key (entry ∷ entries) ≡ uncounted row key entries
  unfolding uncounted
  uncounted-other none key (k, at, change) entries o = rw o
  uncounted-other (some v) key (k, at, change) entries o = refl

  module _ (key : VaultKey) (entry : Entry Time) (entries : List (Entry Time)) where
    sums_same :
        pair_eq.same entry.0 key ≡ true
        → (deposited key (entry ∷ entries) ≡ deposit_in entry.2 +ℤ deposited key entries)
          × (redeemed key (entry ∷ entries) ≡ redemption_in entry.2 +ℤ redeemed key entries)
    unfolding deposited redeemed
    sums_same y = (rw y, rw y)

    sums_other :
        pair_eq.same entry.0 key ≡ false
        → (deposited key (entry ∷ entries) ≡ deposited key entries)
          × (redeemed key (entry ∷ entries) ≡ redeemed key entries)
    unfolding deposited redeemed
    sums_other o = (rw o, rw o)

    last_price-same :
        (price : Price)
        → pair_eq.same entry.0 key ≡ true
        → last_price price key (entry ∷ entries) ≡ last_price (priced_by price entry.2) key entries
    unfolding last_price
    last_price-same price y = rw y

    last_price-other :
        (price : Price)
        → pair_eq.same entry.0 key ≡ false
        → last_price price key (entry ∷ entries) ≡ last_price price key entries
    unfolding last_price
    last_price-other price o = rw o

    Balanced-other :
        (before after : Option (Vault Time))
        → pair_eq.same entry.0 key ≡ false
        → Balanced key entries before after
        → Balanced key (entry ∷ entries) before after
    Balanced-other before after o b =
        let (d, r) = sums_other o in
        let u = uncounted-other before key entry entries o in
        record {
          deposits = rw (d, r, u) b.deposits;
          redemptions = rw r b.redemptions;
          price = b.price ∙ sym (last_price-other (price_of before) o);
        }

    Balanced-Entered :
        (before found after : Option (Vault Time))
        → pair_eq.same entry.0 key ≡ true
        → Entered before entry.2 found
        → Balanced key entries found after
        → Balanced key (entry ∷ entries) before after
    unfolding uncounted
    Balanced-Entered before found after y e b =
        let (d, r) = sums_same y in
        let u = uncounted-some before key entry entries y in
        let f = ap deposits_of e.is_found in
        let g = ap redemptions_of e.is_found in
        let h = ap (λ (row : Option (Vault Time)). uncounted row key entries) e.is_found in
        record {
          deposits =
              rw (d, r, u)
                (omega (
                  int_laws,
                  parts_of_eq b.deposits,
                  parts_of_eq e.deposits,
                  parts_of_eq f,
                  parts_of_eq h,
                ));
          redemptions = rw r (
              omega
                (int_laws, parts_of_eq b.redemptions, parts_of_eq e.redemptions, parts_of_eq g));
          price =
              b.price
              ∙ ap (λ (price : Price). last_price price key entries)
                  (ap price_of e.is_found ∙ e.price)
              ∙ sym (last_price-same (price_of before) y);
        }

  nothing_posted : (row : Option (Vault Time)) (key : VaultKey) → Balanced key [] row row
  unfolding deposited redeemed uncounted last_price
  nothing_posted none key = record {
    deposits = omega int_laws;
    redemptions = omega int_laws;
    price = refl;
  }
  nothing_posted (some v) key = record {
    deposits = omega int_laws;
    redemptions = omega int_laws;
    price = refl;
  }

  pub post-Balanced :
      (now : Time) (vaults : Vaults Time) (entries : List (Entry Time)) (key : VaultKey)
      → Balanced key entries (find vaults key) (find (post now vaults entries) key)
  unfolding post
  post-Balanced now vaults [] key = nothing_posted (find vaults key) key
  post-Balanced now vaults (entry ∷ entries) key =
      let ih = post-Balanced now (enter now vaults entry) entries key in
      elim (Bool-cases (pair_eq.same entry.0 key)) [
        | inl y ↦
            Balanced-Entered key entry entries (find vaults key) (find (enter now vaults entry) key)
              _ y (find-enter now vaults entry key (find vaults key) refl y) ih
        | inr o ↦ Balanced-other key entry entries (find vaults key) _ o (
            subst
              (λ (row : Option (Vault Time)).
                Balanced key entries row (find (post now (enter now vaults entry) entries) key))
              (find-enter_other now vaults entry key o) ih)
      ]

pub post-append :
    {Time : Type 0} (now : Time) (vaults : Vaults Time) (xs ys : List (Entry Time))
    → post now vaults (xs ++ ys) ≡ post now (post now vaults xs) ys
unfolding post
post-append now vaults [] ys = refl
post-append now vaults (x ∷ xs) ys = post-append now (enter now vaults x) xs ys
