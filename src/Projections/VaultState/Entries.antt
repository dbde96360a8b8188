-- ===== src/Projections/VaultState/Entries.antt =====
-- The entries that a batch makes in the vaults, for
-- crates/projections/src/projection/dual/vault_state.rs.
use intuition_core.Base.{
  ℕ, ◌≡◌, refl, sym, ◌∙◌, ap, subst, inl, inr, Bool-cases, Option, none, some, List, [], ◌∷◌, ◌++◌,
  Result, ok, err, if◌then◌else◌, ℤ, Eq,
}
use intuition_core.Errors.{ProjectionError}
use intuition_core.Events.{
  Serde, atom_created, atom_context_registered, triple_created, deposited, redeemed,
  share_price_changed, protocol_fee_accrued, DepositedRecord, RedeemedRecord,
  SharePriceChangedRecord,
}
use intuition_core.Events.Parsing.{EventMetadata, ParsedEvent, typed, unknown}
use intuition_core.Projections.Tables.{Externals, VaultKey, Vaults, price_of}
use intuition_core.Projections.Batch.{
  Kg, Writes, Handled, skipped, written, failed, Loop, goes_on, each_event,
}
use intuition_core.Projections.VaultState.{
  VaultStateDualProjection, key_of, executed, touching, should_skip_shard, process_deposited_typed,
  process_redeemed_typed, write_price, process_share_price_changed_typed, compute_market_cap,
  handle, kg_deposited, kg_redeemed, kg_priced,
}
use intuition_core.Projections.VaultState.Ledger.{
  deposit, redemption, priced, Entry, post, post-append,
}

module _ {Time : Type 0} where
  abbrev pub KgPosted : Time → List (Entry Time) → Option (Kg Time) → Option (Kg Time) → Type 0
  KgPosted now entries none none = Unit
  KgPosted now entries none (some kg) = ⊥
  KgPosted now entries (some kg) none = ⊥
  KgPosted now entries (some kg) (some kg') = kg'.vaults ≡ post now kg.vaults entries

  -- The entries are made in both databases.
  pub record Posted (now : Time) (entries : List (Entry Time)) (w w' : Writes Time) : Type 0 where
    pub legacy : w'.legacy.vaults ≡ post now w.legacy.vaults entries
    pub kg : KgPosted now entries w.kg w'.kg

module _ {Time : Type 0} where
  touching-Posted :
      (now : Time) (entries : List (Entry Time)) (key : VaultKey) (w v : Writes Time)
      → Posted now entries (touching key w) v
      → Posted now entries w v
  touching-Posted now entries key w v p = record { legacy = p.legacy; kg = p.kg }

  KgPosted-nil : (now : Time) (kg : Option (Kg Time)) → KgPosted now [] kg kg
  unfolding post
  KgPosted-nil now none = tt
  KgPosted-nil now (some kg) = refl

  KgPosted-append :
      (now : Time) (xs ys : List (Entry Time)) (kg kg' kg'' : Option (Kg Time))
      → KgPosted now xs kg kg'
      → KgPosted now ys kg' kg''
      → KgPosted now (xs ++ ys) kg kg''
  KgPosted-append now xs ys none none kg'' p q = q
  KgPosted-append now xs ys (some a) (some b) (some c) p q =
      q ∙ ap (λ (vs : Vaults Time). post now vs ys) p ∙ sym (post-append now a.vaults xs ys)
  KgPosted-append now xs ys none (some b) kg'' p q = absurd p
  KgPosted-append now xs ys (some a) none kg'' p q = absurd p
  KgPosted-append now xs ys (some a) (some b) none p q = absurd q

  pub Posted-nil : (now : Time) (w : Writes Time) → Posted now [] w w
  unfolding post
  Posted-nil now w = record { legacy = refl; kg = KgPosted-nil now w.kg }

  pub Posted-append :
      (now : Time) (xs ys : List (Entry Time)) (w w' w'' : Writes Time)
      → Posted now xs w w'
      → Posted now ys w' w''
      → Posted now (xs ++ ys) w w''
  Posted-append now xs ys w w' w'' p q = record {
    legacy =
        q.legacy
        ∙ ap (λ (vs : Vaults Time). post now vs ys) p.legacy
        ∙ sym (post-append now w.legacy.vaults xs ys);
    kg = KgPosted-append now xs ys w.kg w'.kg w''.kg p.kg q.kg;
  }

module _ {J : Serde} ⦃t : Eq J.Time⦄ (E : Externals J) where
  -- The entry of each kind of event.
  abbrev pub deposit_entry : EventMetadata J → DepositedRecord J.Decimal → Entry J.Time
  deposit_entry m d =
      (key_of E d.term_id d.curve_id, m.block_timestamp, deposit (E.amount d.assets_after_fees))

  abbrev pub redeem_entry : EventMetadata J → RedeemedRecord J.Decimal → Entry J.Time
  redeem_entry m d =
      (key_of E d.term_id d.curve_id, m.block_timestamp, redemption (E.amount d.assets))

  abbrev pub price_entry : EventMetadata J → SharePriceChangedRecord J.Decimal → ℤ → Entry J.Time
  price_entry m d market_cap =
      (key_of E d.term_id d.curve_id, m.block_timestamp, priced (price_of E d market_cap))

  kg_deposited-KgPosted :
      (now : J.Time) (m : EventMetadata J) (d : DepositedRecord J.Decimal) (kg : Option (Kg J.Time))
      → KgPosted now (deposit_entry m d ∷ []) kg (kg_deposited E now m d kg)
  unfolding post
  kg_deposited-KgPosted now m d none = tt
  kg_deposited-KgPosted now m d (some kg) = refl

  kg_redeemed-KgPosted :
      (now : J.Time) (m : EventMetadata J) (d : RedeemedRecord J.Decimal) (kg : Option (Kg J.Time))
      → KgPosted now (redeem_entry m d ∷ []) kg (kg_redeemed E now m d kg)
  unfolding post
  kg_redeemed-KgPosted now m d none = tt
  kg_redeemed-KgPosted now m d (some kg) = refl

  kg_priced-KgPosted :
      (now : J.Time) (m : EventMetadata J) (d : SharePriceChangedRecord J.Decimal) (market_cap : ℤ)
      (kg : Option (Kg J.Time))
      → KgPosted now (price_entry m d market_cap ∷ []) kg (kg_priced E now m d market_cap kg)
  unfolding post
  kg_priced-KgPosted now m d market_cap none = tt
  kg_priced-KgPosted now m d market_cap (some kg) = refl

  deposited-Posted :
      (now : J.Time) (w : Writes J.Time) (m : EventMetadata J) (d : DepositedRecord J.Decimal)
      → Posted now (deposit_entry m d ∷ []) w (process_deposited_typed E now w m d)
  unfolding process_deposited_typed post
  deposited-Posted now w m d = record { legacy = refl; kg = kg_deposited-KgPosted now m d w.kg }

  redeemed-Posted :
      (now : J.Time) (w : Writes J.Time) (m : EventMetadata J) (d : RedeemedRecord J.Decimal)
      → Posted now (redeem_entry m d ∷ []) w (process_redeemed_typed E now w m d)
  unfolding process_redeemed_typed post
  redeemed-Posted now w m d = record { legacy = refl; kg = kg_redeemed-KgPosted now m d w.kg }

  written-Posted :
      (now : J.Time) (w : Writes J.Time) (m : EventMetadata J)
      (d : SharePriceChangedRecord J.Decimal) (market_cap : ℤ)
      → Posted now (price_entry m d market_cap ∷ []) w (write_price E now w m d market_cap)
  unfolding write_price post
  written-Posted now w m d market_cap = record {
    legacy = refl;
    kg = kg_priced-KgPosted now m d market_cap w.kg;
  }

module _ {J : Serde} ⦃t : Eq J.Time⦄ (E : Externals J) (X : Type 0) where
  price_entries :
      EventMetadata J
      → SharePriceChangedRecord J.Decimal
      → Result (ProjectionError X) ℤ
      → List (Entry J.Time)
  price_entries m d (err e) = []
  price_entries m d (ok market_cap) = price_entry E m d market_cap ∷ []

  -- What the event changes, when its vault is the shard's.
  unfoldable pub entry_of : VaultStateDualProjection → ParsedEvent J → List (Entry J.Time)
  unfolding price_entries should_skip_shard
  entry_of self (typed m deposited d) =
      if should_skip_shard E self d.term_id d.curve_id then [] else deposit_entry E m d ∷ []
  entry_of self (typed m redeemed d) =
      if should_skip_shard E self d.term_id d.curve_id then [] else redeem_entry E m d ∷ []
  entry_of self (typed m share_price_changed d) =
      if should_skip_shard E self d.term_id d.curve_id
      then []
      else price_entries m d (
          compute_market_cap E (E.decimal_to_string d.total_shares)
            (E.decimal_to_string d.share_price))
  entry_of self (typed m atom_created d) = []
  entry_of self (typed m atom_context_registered d) = []
  entry_of self (typed m triple_created d) = []
  entry_of self (typed m protocol_fee_accrued d) = []
  entry_of self (unknown raw) = []

  unfoldable pub entries_of : VaultStateDualProjection → List (ParsedEvent J) → List (Entry J.Time)
  unfolding entry_of
  entries_of self [] = []
  entries_of self (event ∷ events) = entry_of self event ++ entries_of self events

module _ {J : Serde} {X : Type 0} ⦃t : Eq J.Time⦄ (E : Externals J) where
  -- What holds of a handled event.
  abbrev HandledPosted :
      J.Time → List (Entry J.Time) → Writes J.Time → Handled X (Writes J.Time) → Type 0
  HandledPosted now entries w skipped = entries ≡ []
  HandledPosted now entries w (written w') = Posted now entries w w'
  HandledPosted now entries w (failed e) = Unit

  executed-Posted :
      (now : J.Time) (entries : List (Entry J.Time)) (w w' : Writes J.Time)
      (fault : Option (ProjectionError X))
      → Posted now entries w w'
      → HandledPosted now entries w (executed fault w')
  executed-Posted now entries w w' none p = p
  executed-Posted now entries w w' (some e) p = tt

  priced-Posted :
      (now : J.Time) (fault : Option (ProjectionError X)) (w : Writes J.Time) (m : EventMetadata J)
      (d : SharePriceChangedRecord J.Decimal) (r : Result (ProjectionError X) ℤ)
      → HandledPosted now
          (price_entries E X m d r)
          w
          (process_share_price_changed_typed E now fault w m d r)
  unfolding price_entries process_share_price_changed_typed
  priced-Posted now fault w m d (err e) = tt
  priced-Posted now fault w m d (ok market_cap) =
      executed-Posted now (price_entry E m d market_cap ∷ []) w (write_price E now w m d market_cap)
        fault (written-Posted E now w m d market_cap)

  module _ (self : VaultStateDualProjection) (now : J.Time)
      (statement : ℕ → Option (ProjectionError X)) where
    handle-Posted :
        (w : Writes J.Time) (event : ParsedEvent J)
        → HandledPosted now (entry_of E X self event) w (handle E self now statement w event)
    unfolding handle entry_of
    handle-Posted w (typed m deposited d) =
        elim (Bool-cases (should_skip_shard E self d.term_id d.curve_id)) [
          | inl y ↦ rw y refl
          | inr o ↦ rw o (
              executed-Posted now (deposit_entry E m d ∷ []) w
                (process_deposited_typed E now (touching (key_of E d.term_id d.curve_id) w) m d)
                (statement m.sequence_number)
                (touching-Posted now _ (key_of E d.term_id d.curve_id) w _
                  (deposited-Posted E now (touching (key_of E d.term_id d.curve_id) w) m d)))
        ]
    handle-Posted w (typed m redeemed d) =
        elim (Bool-cases (should_skip_shard E self d.term_id d.curve_id)) [
          | inl y ↦ rw y refl
          | inr o ↦ rw o (
              executed-Posted now (redeem_entry E m d ∷ []) w
                (process_redeemed_typed E now (touching (key_of E d.term_id d.curve_id) w) m d)
                (statement m.sequence_number)
                (touching-Posted now _ (key_of E d.term_id d.curve_id) w _
                  (redeemed-Posted E now (touching (key_of E d.term_id d.curve_id) w) m d)))
        ]
    handle-Posted w (typed m share_price_changed d) =
        elim (Bool-cases (should_skip_shard E self d.term_id d.curve_id)) [
          | inl y ↦ rw y refl
          | inr o ↦ rw o (
              priced-Posted now (statement m.sequence_number) w m d (
                compute_market_cap E (E.decimal_to_string d.total_shares)
                  (E.decimal_to_string d.share_price)))
        ]
    handle-Posted w (typed m atom_created d) = refl
    handle-Posted w (typed m atom_context_registered d) = refl
    handle-Posted w (typed m triple_created d) = refl
    handle-Posted w (typed m protocol_fee_accrued d) = refl
    handle-Posted w (unknown raw) = refl

    HandledPosted-then :
        (w : Writes J.Time) (event : ParsedEvent J) (entries : List (Entry J.Time))
        (h : Handled X (Writes J.Time)) (rest : Writes J.Time → Loop J X (Writes J.Time))
        (w' : Writes J.Time)
        → goes_on h w event rest ≡ ok w'
        → HandledPosted now entries w h
        → (v : Writes J.Time) × (rest v ≡ ok w') × Posted now entries w v
    HandledPosted-then w event entries skipped rest w' e p = (w, e, rw p (Posted-nil now w))
    HandledPosted-then w event entries (written v) rest w' e p = (v, e, p)
    HandledPosted-then w event entries (failed x) rest w' e p = cc

    -- What the loop over a batch writes, where no event stops it.
    pub each_event-Posted :
        (events : List (ParsedEvent J)) (w w' : Writes J.Time)
        → each_event (handle E self now statement) w events ≡ ok w'
        → Posted now (entries_of E X self events) w w'
    unfolding each_event entries_of
    each_event-Posted [] w w' e =
        let same : w ≡ w' = cc e in
        subst (λ (v : Writes J.Time). Posted now [] w v) same (Posted-nil now w)
    each_event-Posted (event ∷ events) w w' e =
        let (v, rest, p) =
          HandledPosted-then w event (entry_of E X self event) (handle E self now statement w event)
            (λ u. each_event (handle E self now statement) u events) w' e (handle-Posted w event) in
        Posted-append now (entry_of E X self event) (entries_of E X self events) w v w' p
          (each_event-Posted events v w' rest)
