-- ===== src/Projections/Holders/Counted.antt =====
-- The holder counts behind a batch of
-- crates/projections/src/projection/dual/vault_holders_index.rs.
use Prim.Native.String.{String}
use mathlib.Core.Path.{fun_ext}
use intuition_core.Base.{
  ℕ, ◌≡◌, refl, sym, ap, subst, ◌&&◌, Bool, leb, ℤ, pos, negsuc, is_positive, ◌⊎◌, inl, inr, arith,
  true, false, Bool-cases, Option, none, some, List, [], ◌∷◌, ok, Eq, pair_eq, text_eq, All, In,
  find, count_if, mapped, find-update_same, find-update_other,
}
use intuition_core.Errors.{ProjectionError}
use intuition_core.Events.{
  Serde, atom_created, atom_context_registered, triple_created, deposited, redeemed,
  share_price_changed, protocol_fee_accrued,
}
use intuition_core.Events.Parsing.{ParsedEvent, typed, unknown}
use intuition_core.Projections.Tables.{
  Externals, Vault, Vaults, Position, Positions, VaultKey, is_holder, refresh_holder_count,
}
use intuition_core.Projections.Batch.{
  Legacy, Kg, Databases, Writes, Faults, Handled, skipped, written, failed, Loop, Outcome, goes_on,
  each_event, process_batch,
}
use intuition_core.Projections.Batch.Atomicity.{
  start, Leaves, nothing, everything, only_kg, process_batch-Leaves,
}
use intuition_core.Projections.Batch.Keeps.{HandledKeeps, each_event-Keeps}
use intuition_core.Projections.VaultState.{
  key_of, touch, is_touched, executed, refresh_touched, refresh_all, refresh_kg,
}
use intuition_core.Projections.Holders.{
  process_deposit_typed, process_redeem_typed, handle, process_parsed_batch,
}

-- An account that holds shares of the vault: a position of the vault with more than no shares.
abbrev pub holds : VaultKey → VaultKey × String → Position → Bool
holds key (vault, account_id) position =
    pair_eq.same vault key && elim position.shares [ pos n ↦ leb 1 n | negsuc n ↦ false ]

is_holder-holds :
    (key : VaultKey) (row : VaultKey × String) (position : Position)
    → is_holder key row position ≡ holds key row position
unfolding is_holder
is_holder-holds key row position = positive position.shares
  where
    positive :
        (n : ℤ)
        → (pair_eq.same row.0 key && is_positive n)
          ≡ (pair_eq.same row.0 key && elim n [ pos k ↦ leb 1 k | negsuc k ↦ false ])
    positive (pos n) = refl
    positive (negsuc n) = refl

count-holds :
    (key : VaultKey) (positions : Positions)
    → count_if positions (is_holder key) ≡ count_if positions (holds key)
count-holds key positions =
    ap (λ (p : VaultKey × String → Position → Bool). count_if positions p)
      (fun_ext (λ row. fun_ext (λ position. is_holder-holds key row position)))

module _ {Time : Type 0} where
  -- The row of a vault, where there is one, counts the positions that hold its shares.
  abbrev pub Counts : VaultKey → Positions → Option (Vault Time) → Type 0
  Counts key positions none = Unit
  Counts key positions (some vault) = vault.holder_count ≡ count_if positions (holds key)

  mapped-Counts :
      (key : VaultKey) (positions : Positions) (row : Option (Vault Time))
      → Counts key positions
          (mapped row (λ vault. record vault { holder_count = count_if positions (is_holder key) }))
  mapped-Counts key positions none = tt
  mapped-Counts key positions (some v) = count-holds key positions

  refresh_holder_count-Counts :
      (positions : Positions) (key j : VaultKey) (vaults : Vaults Time)
      → (pair_eq.same key j ≡ true) ⊎ Counts j positions (find vaults j)
      → Counts j positions (find (refresh_holder_count vaults positions key) j)
  unfolding refresh_holder_count
  refresh_holder_count-Counts positions key j vaults c = elim (Bool-cases (pair_eq.same key j)) [
    | inl y ↦
        let (to, _) = pair_eq.same_iff key j in
        let e : key ≡ j = to y in
        subst (λ (row : Option (Vault Time)). Counts j positions row)
          (sym (find-update_same vaults key j _ y))
          (subst
            (λ (k : VaultKey). Counts j positions (
              mapped (find vaults j)
                (λ vault. record vault { holder_count = count_if positions (is_holder k) })))
            (sym e) (mapped-Counts j positions (find vaults j)))
    | inr o ↦
        subst (λ (row : Option (Vault Time)). Counts j positions row)
          (sym (find-update_other vaults key j _ o)) (old c o)
  ]
    where
      old :
          (pair_eq.same key j ≡ true) ⊎ Counts j positions (find vaults j)
          → pair_eq.same key j ≡ false
          → Counts j positions (find vaults j)
      old (inl y) o = cc
      old (inr c) o = c

  refresh_all-Counts :
      (positions : Positions) (keys : List VaultKey) (j : VaultKey) (vaults : Vaults Time)
      → (is_touched j keys ≡ true) ⊎ Counts j positions (find vaults j)
      → Counts j positions (find (refresh_all positions keys vaults) j)
  unfolding refresh_all
  refresh_all-Counts positions [] j vaults (inl y) = cc
  refresh_all-Counts positions [] j vaults (inr c) = c
  refresh_all-Counts positions (key ∷ keys) j vaults (inr c) =
      refresh_all-Counts positions keys j (refresh_holder_count vaults positions key)
        (inr (refresh_holder_count-Counts positions key j vaults (inr c)))
  refresh_all-Counts positions (key ∷ keys) j vaults (inl y) =
      elim (Bool-cases (pair_eq.same j key)) [
        | inl same ↦
            let (to, _) = pair_eq.same_iff j key in
            let (_, from) = pair_eq.same_iff key j in
            refresh_all-Counts positions keys j (refresh_holder_count vaults positions key) (
              inr (refresh_holder_count-Counts positions key j vaults (inl (from (sym (to same))))))
        | inr other ↦
            refresh_all-Counts positions keys j (refresh_holder_count vaults positions key)
              (inl (rw other at y))
      ]

  abbrev pub KgCounts : VaultKey → Option (Kg Time) → Type 0
  KgCounts key none = Unit
  KgCounts key (some kg) = Counts key kg.positions (find kg.vaults key)

  -- In both databases.
  pub record BothCount (key : VaultKey) (legacy : Legacy Time) (kg : Option (Kg Time))
      : Type 0 where
    pub legacy_row : Counts key legacy.positions (find legacy.vaults key)
    pub kg_row : KgCounts key kg

  refresh_kg-KgCounts :
      (key : VaultKey) (keys : List VaultKey) (kg : Option (Kg Time))
      → is_touched key keys ≡ true
      → KgCounts key (refresh_kg keys kg)
  refresh_kg-KgCounts key keys none y = tt
  refresh_kg-KgCounts key keys (some kg) y =
      refresh_all-Counts kg.positions keys key kg.vaults (inl y)

  refresh_touched-BothCount :
      (key : VaultKey) (w : Writes Time)
      → is_touched key w.touched ≡ true
      → BothCount key (refresh_touched w).legacy (refresh_touched w).kg
  unfolding refresh_touched
  refresh_touched-BothCount key w y = record {
    legacy_row = refresh_all-Counts w.legacy.positions w.touched key w.legacy.vaults (inl y);
    kg_row = refresh_kg-KgCounts key w.touched w.kg y;
  }

touch_self : (key : VaultKey) (keys : List VaultKey) → is_touched key (touch key keys) ≡ true
unfolding touch
touch_self key keys =
    let (_, from) = pair_eq.same_iff key key in
    elim (Bool-cases (is_touched key keys)) [ inl y ↦ rw y y | inr o ↦ rw o (rw (from refl) refl) ]

touch_keeps :
    (key j : VaultKey) (keys : List VaultKey)
    → is_touched j keys ≡ true
    → is_touched j (touch key keys) ≡ true
unfolding touch
touch_keeps key j keys h = elim (Bool-cases (is_touched key keys)) [
  | inl y ↦ rw y h
  | inr o ↦ rw o (ground (arith, h))
]

-- The event moves shares of the vault.
abbrev pub Moves : {J : Serde} ⦃t : Eq J.Time⦄ → Externals J → VaultKey → ParsedEvent J → Type 0
Moves E key (typed m deposited d) = key_of E d.term_id d.curve_id ≡ key
Moves E key (typed m redeemed d) = key_of E d.term_id d.curve_id ≡ key
Moves E key (typed m atom_created d) = ⊥
Moves E key (typed m atom_context_registered d) = ⊥
Moves E key (typed m triple_created d) = ⊥
Moves E key (typed m share_price_changed d) = ⊥
Moves E key (typed m protocol_fee_accrued d) = ⊥
Moves E key (unknown raw) = ⊥

abbrev IsTouched : {Time : Type 0} → VaultKey → Writes Time → Type 0
IsTouched key w = is_touched key w.touched ≡ true

module _ {J : Serde} {X : Type 0} ⦃t : Eq J.Time⦄ (E : Externals J)
    (statement : ℕ → Option (ProjectionError X)) (key : VaultKey) where
  abbrev Touches : Handled X (Writes J.Time) → Type 0
  Touches skipped = ⊥
  Touches (written w) = IsTouched key w
  Touches (failed e) = Unit

  executed-Touches :
      (fault : Option (ProjectionError X)) (w : Writes J.Time)
      → IsTouched key w
      → Touches (executed fault w)
  executed-Touches none w y = y
  executed-Touches (some e) w y = tt

  executed-Keeps :
      (fault : Option (ProjectionError X)) (w : Writes J.Time)
      → IsTouched key w
      → HandledKeeps (IsTouched key) (executed fault w)
  executed-Keeps none w y = y
  executed-Keeps (some e) w y = tt

  touched_for :
      (k : VaultKey) (keys : List VaultKey) → k ≡ key → is_touched key (touch k keys) ≡ true
  touched_for k keys e =
      subst (λ (j : VaultKey). is_touched key (touch j keys) ≡ true) (sym e) (touch_self key keys)

  handle-Touches :
      (w : Writes J.Time) (event : ParsedEvent J)
      → Moves E key event
      → Touches (handle E statement w event)
  unfolding handle process_deposit_typed process_redeem_typed
  handle-Touches w (typed m deposited d) e =
      executed-Touches (statement m.sequence_number) _ (touched_for _ w.touched e)
  handle-Touches w (typed m redeemed d) e =
      executed-Touches (statement m.sequence_number) _ (touched_for _ w.touched e)
  handle-Touches w (typed m atom_created d) e = absurd e
  handle-Touches w (typed m atom_context_registered d) e = absurd e
  handle-Touches w (typed m triple_created d) e = absurd e
  handle-Touches w (typed m share_price_changed d) e = absurd e
  handle-Touches w (typed m protocol_fee_accrued d) e = absurd e
  handle-Touches w (unknown raw) e = absurd e

  abbrev Anything : ParsedEvent J → Type 0
  Anything event = Unit

  All-Anything : (events : List (ParsedEvent J)) → All Anything events
  All-Anything [] = tt
  All-Anything (event ∷ events) = (tt, All-Anything events)

  handle-KeepsTouched :
      (w : Writes J.Time) (event : ParsedEvent J)
      → Anything event
      → IsTouched key w
      → HandledKeeps (IsTouched key) (handle E statement w event)
  unfolding handle process_deposit_typed process_redeem_typed
  handle-KeepsTouched w (typed m deposited d) g y =
      executed-Keeps (statement m.sequence_number) _ (touch_keeps _ key w.touched y)
  handle-KeepsTouched w (typed m redeemed d) g y =
      executed-Keeps (statement m.sequence_number) _ (touch_keeps _ key w.touched y)
  handle-KeepsTouched w (typed m atom_created d) g y = tt
  handle-KeepsTouched w (typed m atom_context_registered d) g y = tt
  handle-KeepsTouched w (typed m triple_created d) g y = tt
  handle-KeepsTouched w (typed m share_price_changed d) g y = tt
  handle-KeepsTouched w (typed m protocol_fee_accrued d) g y = tt
  handle-KeepsTouched w (unknown raw) g y = tt

  goes_on-IsTouched :
      (h : Handled X (Writes J.Time)) (w w' : Writes J.Time) (event : ParsedEvent J)
      (events : List (ParsedEvent J))
      → Touches h
      → goes_on h w event (λ v. each_event (handle E statement) v events) ≡ ok w'
      → IsTouched key w'
  goes_on-IsTouched skipped w w' event events y e = absurd y
  goes_on-IsTouched (written v) w w' event events y e =
      each_event-Keeps (IsTouched key) Anything (handle E statement) handle-KeepsTouched events v w'
        (All-Anything events) y e
  goes_on-IsTouched (failed x) w w' event events y e = cc

  goes_on-rest :
      (h : Handled X (Writes J.Time)) (w w' : Writes J.Time) (event : ParsedEvent J)
      (events : List (ParsedEvent J))
      → goes_on h w event (λ v. each_event (handle E statement) v events) ≡ ok w'
      → (v : Writes J.Time) × (each_event (handle E statement) v events ≡ ok w')
  goes_on-rest skipped w w' event events e = (w, e)
  goes_on-rest (written v) w w' event events e = (v, e)
  goes_on-rest (failed x) w w' event events e = cc

  each_event-IsTouched :
      (event : ParsedEvent J) (events : List (ParsedEvent J)) (w w' : Writes J.Time)
      → In event events
      → Moves E key event
      → each_event (handle E statement) w events ≡ ok w'
      → IsTouched key w'
  unfolding each_event
  each_event-IsTouched event [] w w' m moves e = absurd m
  each_event-IsTouched event (first ∷ events) w w' (inl same) moves e =
      goes_on-IsTouched (handle E statement w first) w w' first events
        (handle-Touches w first (subst (λ (x : ParsedEvent J). Moves E key x) same moves)) e
  each_event-IsTouched event (first ∷ events) w w' (inr m) moves e =
      let (v, rest) = goes_on-rest (handle E statement w first) w w' first events e in
      each_event-IsTouched event events v w' m moves rest

module _ {J : Serde} {X : Type 0} ⦃t : Eq J.Time⦄ (E : Externals J) where
  Leaves-BothCount :
      (faults : Faults X) (dbs : Databases J) (loop : Loop J X (Writes J.Time)) (out : Outcome J X)
      (key : VaultKey)
      → Leaves faults dbs loop refresh_touched out
      → out.1 ≡ ok tt
      → ((w : Writes J.Time) → loop ≡ ok w → IsTouched key w)
      → BothCount key out.0.legacy out.0.kg
  Leaves-BothCount faults dbs loop out key (nothing e l k r) h touched = cc
  Leaves-BothCount faults dbs loop out key (everything w went all) h touched =
      let b = refresh_touched-BothCount key w (touched w went) in
      subst (λ (o : Outcome J X). BothCount key o.0.legacy o.0.kg) (sym all)
        (record { legacy_row = b.legacy_row; kg_row = b.kg_row })
  Leaves-BothCount faults dbs loop out key (only_kg w e went fails all) h touched = cc

  -- Behind a batch that succeeds, the holder count of each vault whose shares an event of the batch
  -- moved is, in both databases and where the vault has a row, the number of its positions with more
  -- than no shares.
  pub process_parsed_batch-BothCount :
      (faults : Faults X) (dbs : Databases J) (events : List (ParsedEvent J))
      (event : ParsedEvent J) (key : VaultKey)
      → In event events
      → Moves E key event
      → (process_parsed_batch E faults dbs events).1 ≡ ok tt
      → BothCount key
          (process_parsed_batch E faults dbs events).0.legacy
          (process_parsed_batch E faults dbs events).0.kg
  unfolding process_parsed_batch
  process_parsed_batch-BothCount faults dbs events event key m moves h =
      Leaves-BothCount faults dbs (each_event (handle E faults.statement) (start dbs) events)
        (process_batch "vault_holders_index:dual" faults dbs (handle E faults.statement)
          refresh_touched events)
        key
        (process_batch-Leaves "vault_holders_index:dual" faults dbs (handle E faults.statement)
          refresh_touched events)
        h
        (λ w went.
          each_event-IsTouched E faults.statement key event events (start dbs) w m moves went)
