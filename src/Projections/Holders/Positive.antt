-- ===== src/Projections/Holders/Positive.antt =====
-- The positions that crates/projections/src/projection/dual/vault_holders_index.rs keeps hold shares.
use Prim.Native.String.{String}
use intuition_core.Base.{
  ℕ, ◌≡◌, sym, subst, ◌⊎◌, inl, inr, arith, true, not, Bool-cases, Option, none, some, List, [],
  ◌∷◌, ok, ℤ, ◌+ℤ◌, +ℤ_parts, is_positive, Eq, pair_eq, text_eq, All, upsert, update, delete_if,
}
use intuition_core.Errors.{ProjectionError}
use intuition_core.Events.{
  Serde, atom_created, atom_context_registered, triple_created, deposited, redeemed,
  share_price_changed, protocol_fee_accrued, DepositedRecord, RedeemedRecord,
}
use intuition_core.Events.Parsing.{ParsedEvent, typed, unknown}
use intuition_core.Projections.Tables.{
  Externals, Position, Positions, VaultKey, upsert_position_on_deposit,
  decrement_position_on_redeem, prune_zero_position,
}
use intuition_core.Projections.Batch.{
  Legacy, Kg, Databases, Writes, Faults, Loop, Outcome, each_event, process_batch,
}
use intuition_core.Projections.Batch.Atomicity.{
  start, Leaves, nothing, everything, only_kg, process_batch-Leaves,
}
use intuition_core.Projections.Batch.Keeps.{HandledKeeps, each_event-Keeps}
use intuition_core.Projections.VaultState.{key_of, touching, executed, refresh_touched, refresh_kg}
use intuition_core.Projections.Holders.{
  deposit_position, redeem_position, deposit_kg_position, redeem_kg_position, on_positions,
  on_kg_positions, process_deposit_typed, process_redeem_typed, handle, process_parsed_batch,
}

abbrev PositionKey : Type 0
PositionKey = VaultKey × String

abbrev HoldsShares : PositionKey × Position → Type 0
HoldsShares (key, position) = is_positive position.shares ≡ true

-- Every row holds shares.
abbrev pub Positive : Positions → Type 0
Positive positions = All HoldsShares positions

-- Every row but those of a key.
abbrev PositiveBut : PositionKey → Positions → Type 0
PositiveBut k positions =
    All (λ (row : PositionKey × Position). HoldsShares row ⊎ (pair_eq.same row.0 k ≡ true))
      positions

is_positive-+ℤ :
    (a b : ℤ) → is_positive a ≡ true → is_positive b ≡ true → is_positive (a +ℤ b) ≡ true
is_positive-+ℤ a b p q = ground (arith, +ℤ_parts a b)

upsert-Positive :
    (positions : Positions) (k : PositionKey) (fresh : Position) (change : Position → Position)
    → is_positive fresh.shares ≡ true
    → ((p : Position) → is_positive p.shares ≡ true → is_positive (change p).shares ≡ true)
    → Positive positions
    → Positive (upsert positions k fresh change)
unfolding upsert
upsert-Positive [] k fresh change f c ps = (f, tt)
upsert-Positive ((j, p) ∷ rows) k fresh change f c (h, hs) =
    let rest = upsert-Positive rows k fresh change f c hs in
    elim (Bool-cases (pair_eq.same j k)) [ inl y ↦ rw y (c p h, hs) | inr o ↦ rw o (h, rest) ]

Positive-PositiveBut :
    (positions : Positions) (k : PositionKey) → Positive positions → PositiveBut k positions
Positive-PositiveBut [] k ps = tt
Positive-PositiveBut (row ∷ rows) k (h, hs) = (inl h, Positive-PositiveBut rows k hs)

update-PositiveBut :
    (positions : Positions) (k : PositionKey) (change : Position → Position)
    → Positive positions
    → PositiveBut k (update positions k change)
unfolding update
update-PositiveBut [] k change ps = tt
update-PositiveBut ((j, p) ∷ rows) k change (h, hs) =
    let rest = update-PositiveBut rows k change hs in
    elim (Bool-cases (pair_eq.same j k)) [
      | inl y ↦ rw y (inr y, Positive-PositiveBut rows k hs)
      | inr o ↦ rw o (inl h, rest)
    ]

delete_if-Positive :
    (positions : Positions) (k : PositionKey)
    → PositiveBut k positions
    → Positive (delete_if positions k (λ position. not (is_positive position.shares)))
unfolding delete_if
delete_if-Positive [] k ps = tt
delete_if-Positive ((j, p) ∷ rows) k (h, hs) =
    let rest = delete_if-Positive rows k hs in
    elim (Bool-cases (is_positive p.shares)) [
      | inl y ↦ ground (arith, y, rest)
      | inr o ↦ ground (arith, o, rest, h)
    ]

module _ {J : Serde} ⦃t : Eq J.Time⦄ (E : Externals J) where
  deposit_position-Positive :
      (d : DepositedRecord J.Decimal) (positions : Positions)
      → is_positive (E.amount d.shares) ≡ true
      → Positive positions
      → Positive (deposit_position E d positions)
  unfolding deposit_position upsert_position_on_deposit
  deposit_position-Positive d positions h ps =
      upsert-Positive positions (key_of E d.term_id d.curve_id, d.receiver) _ _ h
        (λ p q. is_positive-+ℤ p.shares (E.amount d.shares) q h) ps

  redeem_position-Positive :
      (d : RedeemedRecord J.Decimal) (positions : Positions)
      → Positive positions
      → Positive (redeem_position E d positions)
  unfolding redeem_position decrement_position_on_redeem prune_zero_position
  redeem_position-Positive d positions ps =
      delete_if-Positive _ (key_of E d.term_id d.curve_id, d.sender)
        (update-PositiveBut positions (key_of E d.term_id d.curve_id, d.sender) _ ps)

module _ {Time : Type 0} where
  abbrev pub KgPositive : Option (Kg Time) → Type 0
  KgPositive none = Unit
  KgPositive (some kg) = Positive kg.positions

  -- In both databases.
  pub record BothPositive (legacy : Legacy Time) (kg : Option (Kg Time)) : Type 0 where
    pub legacy_rows : Positive legacy.positions
    pub kg_rows : KgPositive kg

  on_positions-BothPositive :
      (change_kg change : Positions → Positions) (w : Writes Time)
      → ((positions : Positions) → Positive positions → Positive (change_kg positions))
      → ((positions : Positions) → Positive positions → Positive (change positions))
      → BothPositive w.legacy w.kg
      → BothPositive (on_positions change_kg change w).legacy (on_positions change_kg change w).kg
  on_positions-BothPositive change_kg change w keeps_kg keeps b = record {
    legacy_rows = keeps w.legacy.positions b.legacy_rows;
    kg_rows = on_kg w.kg b.kg_rows;
  }
    where
      on_kg : (kg : Option (Kg Time)) → KgPositive kg → KgPositive (on_kg_positions change_kg kg)
      on_kg none p = tt
      on_kg (some kg) p = keeps_kg kg.positions p

  refresh_kg-KgPositive :
      (keys : List VaultKey) (kg : Option (Kg Time))
      → KgPositive kg
      → KgPositive (refresh_kg keys kg)
  refresh_kg-KgPositive keys none p = tt
  refresh_kg-KgPositive keys (some kg) p = p

abbrev BothHold : {Time : Type 0} → Writes Time → Type 0
BothHold w = BothPositive w.legacy w.kg

executed-Keeps :
    {X Time : Type 0} (fault : Option (ProjectionError X)) (w : Writes Time)
    → BothHold w
    → HandledKeeps BothHold (executed fault w)
executed-Keeps none w b = b
executed-Keeps (some e) w b = tt

module _ {Time : Type 0} where
  refresh_touched-BothPositive : (w : Writes Time) → BothHold w → BothHold (refresh_touched w)
  unfolding refresh_touched
  refresh_touched-BothPositive w b = record {
    legacy_rows = b.legacy_rows;
    kg_rows = refresh_kg-KgPositive w.touched w.kg b.kg_rows;
  }

-- A deposit gives shares.
abbrev pub Gives : {J : Serde} → Externals J → ParsedEvent J → Type 0
Gives E (typed m deposited d) = is_positive (E.amount d.shares) ≡ true
Gives E (typed m redeemed d) = Unit
Gives E (typed m atom_created d) = Unit
Gives E (typed m atom_context_registered d) = Unit
Gives E (typed m triple_created d) = Unit
Gives E (typed m share_price_changed d) = Unit
Gives E (typed m protocol_fee_accrued d) = Unit
Gives E (unknown raw) = Unit

module _ {J : Serde} {X : Type 0} ⦃t : Eq J.Time⦄ (E : Externals J) where
  handle-Keeps :
      (statement : ℕ → Option (ProjectionError X)) (w : Writes J.Time) (event : ParsedEvent J)
      → Gives E event
      → BothHold w
      → HandledKeeps BothHold (handle E statement w event)
  unfolding handle process_deposit_typed process_redeem_typed deposit_position redeem_position
      upsert_position_on_deposit decrement_position_on_redeem prune_zero_position
  handle-Keeps statement w (typed m deposited d) g b =
      executed-Keeps (statement m.sequence_number) _ (
        on_positions-BothPositive (deposit_kg_position E d) (deposit_position E d)
          (touching (key_of E d.term_id d.curve_id) w)
          (λ ps p. deposit_position-Positive E d ps g p)
          (λ ps p. deposit_position-Positive E d ps g p)
          (record { legacy_rows = b.legacy_rows; kg_rows = b.kg_rows }))
  handle-Keeps statement w (typed m redeemed d) g b =
      executed-Keeps (statement m.sequence_number) _ (
        on_positions-BothPositive (redeem_kg_position E d) (redeem_position E d)
          (touching (key_of E d.term_id d.curve_id) w) (λ ps p. redeem_position-Positive E d ps p)
          (λ ps p. redeem_position-Positive E d ps p)
          (record { legacy_rows = b.legacy_rows; kg_rows = b.kg_rows }))
  handle-Keeps statement w (typed m atom_created d) g b = tt
  handle-Keeps statement w (typed m atom_context_registered d) g b = tt
  handle-Keeps statement w (typed m triple_created d) g b = tt
  handle-Keeps statement w (typed m share_price_changed d) g b = tt
  handle-Keeps statement w (typed m protocol_fee_accrued d) g b = tt
  handle-Keeps statement w (unknown raw) g b = tt

  Leaves-BothPositive :
      (faults : Faults X) (dbs : Databases J) (loop : Loop J X (Writes J.Time)) (out : Outcome J X)
      → Leaves faults dbs loop refresh_touched out
      → BothPositive dbs.legacy dbs.kg
      → ((w : Writes J.Time) → loop ≡ ok w → BothHold w)
      → BothPositive out.0.legacy out.0.kg
  Leaves-BothPositive faults dbs loop out (nothing e l k r) b holds = record {
    legacy_rows = subst (λ (x : Legacy J.Time). Positive x.positions) (sym l) b.legacy_rows;
    kg_rows = subst (λ (x : Option (Kg J.Time)). KgPositive x) (sym k) b.kg_rows;
  }
  Leaves-BothPositive faults dbs loop out (everything w went all) b holds =
      subst (λ (o : Outcome J X). BothPositive o.0.legacy o.0.kg) (sym all)
        (record {
          legacy_rows = (refresh_touched-BothPositive w (holds w went)).legacy_rows;
          kg_rows = (refresh_touched-BothPositive w (holds w went)).kg_rows;
        })
  Leaves-BothPositive faults dbs loop out (only_kg w e went fails all) b holds =
      subst (λ (o : Outcome J X). BothPositive o.0.legacy o.0.kg) (sym all)
        (record {
          legacy_rows = b.legacy_rows;
          kg_rows = (refresh_touched-BothPositive w (holds w went)).kg_rows;
        })

  -- Where every deposit gives shares, no batch ever leaves a position without shares in either database,
  -- whatever fails in it, if there was none before.
  pub process_parsed_batch-BothPositive :
      (faults : Faults X) (dbs : Databases J) (events : List (ParsedEvent J))
      → All (Gives E) events
      → BothPositive dbs.legacy dbs.kg
      → BothPositive
          (process_parsed_batch E faults dbs events).0.legacy
          (process_parsed_batch E faults dbs events).0.kg
  unfolding process_parsed_batch
  process_parsed_batch-BothPositive faults dbs events g b =
      Leaves-BothPositive faults dbs (each_event (handle E faults.statement) (start dbs) events)
        (process_batch "vault_holders_index:dual" faults dbs (handle E faults.statement)
          refresh_touched events)
        (process_batch-Leaves "vault_holders_index:dual" faults dbs (handle E faults.statement)
          refresh_touched events)
        b
        (λ w went.
          each_event-Keeps BothHold (Gives E) (handle E faults.statement)
            (handle-Keeps faults.statement) events (start dbs) w g
            (record { legacy_rows = b.legacy_rows; kg_rows = b.kg_rows }) went)
