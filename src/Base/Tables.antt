-- ===== src/Base/Tables.antt =====
-- SQL tables with a primary key, as lists of keys with rows, and the statements that are used on them.
use Prim.Native.String.{String}
use Prim.Native.Nat.{ℕ, ◌+◌}
use mathlib.Core.Path.{◌≡◌, ap, ◌∙◌, refl}
use mathlib.Core.Logic.{◌↔◌, ◌⊎◌, inl, inr}
use mathlib.Core.Bool.{Bool, true, false, ◌&&◌}
use mathlib.Core.Option.{Option, none, some}
use mathlib.Core.List.{List, [], ◌∷◌}
use native.Mathlib.Omega.{arith}
use intuition_core.Base.Tests.{if◌then◌else◌, Bool-cases}
use intuition_core.Base.Texts.{same_text, same_text_iff}

pub record Eq (A : Type 0) : Type 0 where
  pub same : A → A → Bool
  pub same_iff : (a b : A) → (same a b ≡ true) ↔ (a ≡ b)

instance abbrev pub text_eq : Eq String
text_eq = record { same = same_text; same_iff = same_text_iff }

abbrev pub same_pair : {A B : Type 0} → Eq A → Eq B → A × B → A × B → Bool
same_pair d e (a, b) (c, f) = d.same a c && e.same b f

pub same_pair_iff :
    {A B : Type 0} (d : Eq A) (e : Eq B) (p q : A × B) → (same_pair d e p q ≡ true) ↔ (p ≡ q)
same_pair_iff d e (a, b) (c, f) = ground (arith, d.same_iff a c, e.same_iff b f)

instance abbrev pub pair_eq : {A B : Type 0} ⦃d : Eq A⦄ ⦃e : Eq B⦄ → Eq (A × B)
pair_eq ⦃d⦄ ⦃e⦄ = record { same = same_pair d e; same_iff = same_pair_iff d e }

abbrev pub Table : Type 0 → Type 0 → Type 0
Table K R = List (K × R)

module _ {R : Type 0} where
  abbrev pub changed : Option R → R → (R → R) → R
  changed none fresh change = fresh
  changed (some r) fresh change = change r

  abbrev pub kept : Option R → R → R
  kept none fresh = fresh
  kept (some r) fresh = r

  abbrev pub mapped : Option R → (R → R) → Option R
  mapped none change = none
  mapped (some r) change = some (change r)

module _ {K R : Type 0} ⦃e : Eq K⦄ where
  unfoldable pub find : Table K R → K → Option R
  find [] k = none
  find ((j, r) ∷ rows) k = let rest = find rows k in if e.same j k then some r else rest

  -- `INSERT … ON CONFLICT DO UPDATE`.
  unfoldable pub upsert : Table K R → K → R → (R → R) → Table K R
  upsert [] k fresh change = (k, fresh) ∷ []
  upsert ((j, r) ∷ rows) k fresh change =
      let rest = upsert rows k fresh change in
      if e.same j k then (j, change r) ∷ rows else (j, r) ∷ rest

  -- `INSERT … ON CONFLICT DO NOTHING`.
  unfoldable pub insert_new : Table K R → K → R → Table K R
  insert_new [] k fresh = (k, fresh) ∷ []
  insert_new ((j, r) ∷ rows) k fresh =
      let rest = insert_new rows k fresh in if e.same j k then (j, r) ∷ rows else (j, r) ∷ rest

  -- `UPDATE … WHERE key = k`.
  unfoldable pub update : Table K R → K → (R → R) → Table K R
  update [] k change = []
  update ((j, r) ∷ rows) k change =
      let rest = update rows k change in if e.same j k then (j, change r) ∷ rows else (j, r) ∷ rest

  -- `DELETE … WHERE key = k AND test`.
  unfoldable pub delete_if : Table K R → K → (R → Bool) → Table K R
  delete_if [] k test = []
  delete_if ((j, r) ∷ rows) k test =
      let rest = delete_if rows k test in if e.same j k && test r then rest else (j, r) ∷ rest

  -- `SELECT COUNT(*) … WHERE test`.
  unfoldable pub count_if : Table K R → (K → R → Bool) → ℕ
  count_if [] test = 0
  count_if ((j, r) ∷ rows) test =
      let rest = count_if rows test in if test j r then rest + 1 else rest

  pub find-upsert :
      (rows : Table K R) (k j : K) (fresh : R) (change : R → R)
      → find (upsert rows k fresh change) j
        ≡ (if e.same k j then some (changed (find rows k) fresh change) else find rows j)
  unfolding find upsert
  find-upsert [] k j fresh change = ground arith
  find-upsert ((i, r) ∷ rows) k j fresh change =
      ground
        (arith, e.same_iff k j, e.same_iff i k, e.same_iff i j, find-upsert rows k j fresh change)

  pub find-insert_new :
      (rows : Table K R) (k j : K) (fresh : R)
      → find (insert_new rows k fresh) j
        ≡ (if e.same k j then some (kept (find rows k) fresh) else find rows j)
  unfolding find insert_new
  find-insert_new [] k j fresh = ground arith
  find-insert_new ((i, r) ∷ rows) k j fresh =
      ground (arith, e.same_iff k j, e.same_iff i k, e.same_iff i j, find-insert_new rows k j fresh)

  pub find-update :
      (rows : Table K R) (k j : K) (change : R → R)
      → find (update rows k change) j
        ≡ (if e.same k j then mapped (find rows k) change else find rows j)
  unfolding find update
  find-update [] k j change = ground arith
  find-update ((i, r) ∷ rows) k j change =
      ground (arith, e.same_iff k j, e.same_iff i k, e.same_iff i j, find-update rows k j change)

  pub find-upsert_other :
      (rows : Table K R) (k j : K) (fresh : R) (change : R → R)
      → e.same k j ≡ false
      → find (upsert rows k fresh change) j ≡ find rows j
  find-upsert_other rows k j fresh change o = find-upsert rows k j fresh change ∙ rw o

  pub find-upsert_same :
      (rows : Table K R) (k j : K) (row : Option R) (fresh : R) (change : R → R)
      → find rows j ≡ row
      → e.same k j ≡ true
      → find (upsert rows k fresh change) j ≡ some (changed row fresh change)
  find-upsert_same rows k j row fresh change r y =
      let (to, _) = e.same_iff k j in
      find-upsert rows k j fresh change
      ∙ rw y (
          ap (λ (i : K). some (changed (find rows i) fresh change)) (to y)
          ∙ ap (λ (o : Option R). some (changed o fresh change)) r)

  pub find-update_other :
      (rows : Table K R) (k j : K) (change : R → R)
      → e.same k j ≡ false
      → find (update rows k change) j ≡ find rows j
  find-update_other rows k j change o = find-update rows k j change ∙ rw o

  pub find-update_same :
      (rows : Table K R) (k j : K) (change : R → R)
      → e.same k j ≡ true
      → find (update rows k change) j ≡ mapped (find rows j) change
  find-update_same rows k j change y =
      let (to, _) = e.same_iff k j in
      find-update rows k j change ∙ rw y (ap (λ (i : K). mapped (find rows i) change) (to y))

  -- The key has a row.
  abbrev pub HasKey : K → Table K R → Type 0
  HasKey k [] = ⊥
  HasKey k ((j, r) ∷ rows) = (e.same j k ≡ true) ⊎ HasKey k rows

  pub insert_new-HasKey :
      (rows : Table K R) (k : K) (fresh : R) → HasKey k (insert_new rows k fresh)
  unfolding insert_new
  insert_new-HasKey [] k fresh = let (_, back) = e.same_iff k k in inl (back refl)
  insert_new-HasKey ((j, r) ∷ rows) k fresh = elim (Bool-cases (e.same j k)) [
    | inl y ↦ rw y (inl y)
    | inr o ↦ rw o (inr (insert_new-HasKey rows k fresh))
  ]

  pub HasKey-insert_new :
      (rows : Table K R) (k j : K) (fresh : R) → HasKey j rows → HasKey j (insert_new rows k fresh)
  unfolding insert_new
  HasKey-insert_new [] k j fresh h = absurd h
  HasKey-insert_new ((i, r) ∷ rows) k j fresh h = elim (Bool-cases (e.same i k)) [
    | inl y ↦ rw y h
    | inr o ↦ rw o (elim h [ inl l ↦ inl l | inr m ↦ inr (HasKey-insert_new rows k j fresh m) ])
  ]

  -- A row whose key is there is not inserted.
  pub insert_new_known :
      (rows : Table K R) (k : K) (fresh : R) → HasKey k rows → insert_new rows k fresh ≡ rows
  unfolding insert_new
  insert_new_known [] k fresh h = absurd h
  insert_new_known ((j, r) ∷ rows) k fresh h = elim (Bool-cases (e.same j k)) [
    | inl y ↦ rw y refl
    | inr o ↦ elim h [
      | inl y ↦ absurd (ground (arith, y, o))
      | inr m ↦ rw (o, insert_new_known rows k fresh m) refl
    ]
  ]
