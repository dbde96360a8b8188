-- ===== src/Projections/VaultState/Totals.antt =====
-- The totals of the vaults behind whole batches of
-- crates/projections/src/projection/dual/vault_state.rs, and behind batches that are tried again.
use intuition_core.Base.{
  ℕ, ◌≡◌, refl, sym, ap, subst, ◌∙◌, inl, inr, Bool-cases, Option, none, some, List, [], ◌∷◌, ok,
  err, Eq, pair_eq, text_eq, find, find-update_same, find-update_other, mapped,
}
use intuition_core.Errors.{ProjectionError}
use intuition_core.Events.{Serde}
use intuition_core.Events.Parsing.{ParsedEvent}
use intuition_core.Projections.Tables.{
  Externals, Vault, Vaults, VaultKey, Positions, refresh_holder_count,
}
use intuition_core.Projections.Batch.{Legacy, Kg, Databases, Writes, Faults, Outcome, each_event}
use intuition_core.Projections.Batch.Atomicity.{
  start, Leaves, nothing, everything, only_kg, process_batch-Leaves,
}
use intuition_core.Projections.Batch.HalfDone.{without_last, with_last, process_batch-HalfDone}
use intuition_core.Projections.VaultState.{
  VaultStateDualProjection, refresh_all, refresh_kg, refresh_touched, handle, process_parsed_batch,
}
use intuition_core.Projections.VaultState.Ledger.{
  Entry, Balanced, deposits_of, redemptions_of, price_of, post-Balanced,
}
use intuition_core.Projections.VaultState.Entries.{entries_of, Posted, KgPosted, each_event-Posted}

module _ {Time : Type 0} where
  -- Two rows with the same totals and price.
  record SameTotals (row row' : Option (Vault Time)) : Type 0 where
    deposits : deposits_of row' ≡ deposits_of row
    redemptions : redemptions_of row' ≡ redemptions_of row
    price : price_of row' ≡ price_of row

  refreshed-SameTotals :
      (row : Option (Vault Time)) (n : ℕ)
      → SameTotals row (mapped row (λ vault. record vault { holder_count = n }))
  refreshed-SameTotals none n = record { deposits = refl; redemptions = refl; price = refl }
  refreshed-SameTotals (some v) n = record { deposits = refl; redemptions = refl; price = refl }

  refresh_holder_count-SameTotals :
      (vaults : Vaults Time) (positions : Positions) (key j : VaultKey)
      → SameTotals (find vaults j) (find (refresh_holder_count vaults positions key) j)
  unfolding refresh_holder_count
  refresh_holder_count-SameTotals vaults positions key j = elim (Bool-cases (pair_eq.same key j)) [
    | inl y ↦
        subst (λ (row : Option (Vault Time)). SameTotals (find vaults j) row)
          (sym (find-update_same vaults key j _ y)) (refreshed-SameTotals (find vaults j) _)
    | inr o ↦
        subst (λ (row : Option (Vault Time)). SameTotals (find vaults j) row)
          (sym (find-update_other vaults key j _ o))
          (record { deposits = refl; redemptions = refl; price = refl })
  ]

  refresh_all-SameTotals :
      (positions : Positions) (keys : List VaultKey) (vaults : Vaults Time) (j : VaultKey)
      → SameTotals (find vaults j) (find (refresh_all positions keys vaults) j)
  unfolding refresh_all
  refresh_all-SameTotals positions [] vaults j = record {
    deposits = refl;
    redemptions = refl;
    price = refl;
  }
  refresh_all-SameTotals positions (key ∷ keys) vaults j =
      let ih =
        refresh_all-SameTotals positions keys (refresh_holder_count vaults positions key) j in
      let one = refresh_holder_count-SameTotals vaults positions key j in
      record {
        deposits = ih.deposits ∙ one.deposits;
        redemptions = ih.redemptions ∙ one.redemptions;
        price = ih.price ∙ one.price;
      }

  -- A balance says nothing but the totals and the price of the row behind it.
  Balanced-SameTotals :
      (key : VaultKey) (entries : List (Entry Time)) (before after after' : Option (Vault Time))
      → SameTotals after after'
      → Balanced key entries before after
      → Balanced key entries before after'
  Balanced-SameTotals key entries before after after' s b = record {
    deposits = rw s.deposits b.deposits;
    redemptions = s.redemptions ∙ b.redemptions;
    price = s.price ∙ b.price;
  }

  abbrev kg_row : VaultKey → Option (Kg Time) → Option (Vault Time)
  kg_row key none = none
  kg_row key (some kg) = find kg.vaults key

  -- The rows of the vault in both databases are balanced; without a second database there is none.
  abbrev pub KgBalanced :
      VaultKey → List (Entry Time) → Option (Kg Time) → Option (Kg Time) → Type 0
  KgBalanced key entries none none = Unit
  KgBalanced key entries none (some kg) = ⊥
  KgBalanced key entries (some kg) none = ⊥
  KgBalanced key entries (some kg) (some kg') =
      Balanced key entries (find kg.vaults key) (find kg'.vaults key)

  refresh_kg-KgBalanced :
      (now : Time) (keys : List VaultKey) (key : VaultKey) (entries : List (Entry Time))
      (kg kg' : Option (Kg Time))
      → KgPosted now entries kg kg'
      → KgBalanced key entries kg (refresh_kg keys kg')
  refresh_kg-KgBalanced now keys key entries none none p = tt
  refresh_kg-KgBalanced now keys key entries none (some b) p = p
  refresh_kg-KgBalanced now keys key entries (some a) none p = p
  refresh_kg-KgBalanced now keys key entries (some a) (some b) p =
      Balanced-SameTotals key entries (find a.vaults key) (find b.vaults key)
        (find (refresh_all b.positions keys b.vaults) key)
        (refresh_all-SameTotals b.positions keys b.vaults key)
        (subst (λ (vs : Vaults Time). Balanced key entries (find a.vaults key) (find vs key))
          (sym p) (post-Balanced now a.vaults entries key))

  -- The totals of the vault in both databases, before and behind a list of entries.
  pub record Accounts (key : VaultKey) (entries : List (Entry Time)) (before after : Legacy Time)
      (kg_before kg_after : Option (Kg Time)) : Type 0 where
    pub legacy : Balanced key entries (find before.vaults key) (find after.vaults key)
    pub kg : KgBalanced key entries kg_before kg_after

  refresh_touched-Accounts :
      (now : Time) (key : VaultKey) (entries : List (Entry Time)) (w w' : Writes Time)
      → Posted now entries w w'
      → Accounts key entries w.legacy (refresh_touched w').legacy w.kg (refresh_touched w').kg
  unfolding refresh_touched
  refresh_touched-Accounts now key entries w w' p = record {
    legacy =
        Balanced-SameTotals key entries (find w.legacy.vaults key) (find w'.legacy.vaults key)
          (find (refresh_all w'.legacy.positions w'.touched w'.legacy.vaults) key)
          (refresh_all-SameTotals w'.legacy.positions w'.touched w'.legacy.vaults key)
          (subst
            (λ (vs : Vaults Time). Balanced key entries (find w.legacy.vaults key) (find vs key))
            (sym p.legacy) (post-Balanced now w.legacy.vaults entries key));
    kg = refresh_kg-KgBalanced now w'.touched key entries w.kg w'.kg p.kg;
  }

module _ {J : Serde} {X : Type 0} ⦃t : Eq J.Time⦄ (E : Externals J)
    (self : VaultStateDualProjection) where
  -- A batch either writes nothing, or all that its events and the refreshes ask for to both databases,
  -- or, when only the commit of the legacy database fails, all to `kg` and nothing to the other; what is
  -- not written everywhere is reported as an error.
  pub process_parsed_batch-Leaves :
      (now : J.Time) (faults : Faults X) (dbs : Databases J) (events : List (ParsedEvent J))
      → Leaves faults dbs
          (each_event (handle E self now faults.statement) (start dbs) events)
          refresh_touched
          (process_parsed_batch E self now faults dbs events)
  unfolding process_parsed_batch
  process_parsed_batch-Leaves now faults dbs events =
      process_batch-Leaves "vault_state:dual" faults dbs (handle E self now faults.statement)
        refresh_touched events

  -- A batch that succeeds counts each deposit and each redemption exactly once in its vault's totals, in
  -- both databases: what a vault has deposited grows by the deposits less the redemptions and what it has
  -- redeemed by the redemptions of its shard's events, but that a redemption that creates the row is not
  -- taken from the deposits; and the vault has the price, the shares, the assets and the market cap of the
  -- last price event, or without one those that it had.
  pub process_parsed_batch-Accounts :
      (now : J.Time) (faults : Faults X) (dbs : Databases J) (events : List (ParsedEvent J))
      (key : VaultKey)
      → (process_parsed_batch E self now faults dbs events).1 ≡ ok tt
      → Accounts key
          (entries_of E X self events)
          dbs.legacy
          (process_parsed_batch E self now faults dbs events).0.legacy
          dbs.kg
          (process_parsed_batch E self now faults dbs events).0.kg
  process_parsed_batch-Accounts now faults dbs events key h =
      elim (process_parsed_batch-Leaves now faults dbs events) [
        | nothing e l k r ↦ cc
        | everything w went all ↦
            subst
              (λ (out : Outcome J X).
                Accounts key (entries_of E X self events) dbs.legacy out.0.legacy dbs.kg out.0.kg)
              (sym all)
              (refresh_touched-Accounts now key (entries_of E X self events) (start dbs) w
                (each_event-Posted E self now faults.statement events (start dbs) w went))
        | only_kg w e went fails all ↦ cc
      ]

  -- Where a batch would succeed but for the commit of the legacy database, that commit's error is
  -- returned with the legacy database as it was, and `kg` has accounted for the events once. When the
  -- batch is tried again, at whatever time, and succeeds, the legacy database has accounted for each
  -- event once, and `kg` for a second time, on top of the first.
  pub process_parsed_batch-replayed :
      (now now' : J.Time) (faults faults' : Faults X) (problem : ProjectionError X)
      (dbs : Databases J) (events : List (ParsedEvent J)) (key : VaultKey)
      → (process_parsed_batch E self now (without_last faults) dbs events).1 ≡ ok tt
      → let first = process_parsed_batch E self now (with_last faults problem) dbs events in
        let second = process_parsed_batch E self now' faults' first.0 events in
        second.1 ≡ ok tt
        → (first.1 ≡ err problem)
          × (first.0.legacy ≡ dbs.legacy)
          × KgBalanced key (entries_of E X self events) dbs.kg first.0.kg
          × Balanced key
              (entries_of E X self events)
              (find dbs.legacy.vaults key)
              (find second.0.legacy.vaults key)
          × KgBalanced key (entries_of E X self events) first.0.kg second.0.kg
  unfolding process_parsed_batch
  process_parsed_batch-replayed now now' faults faults' problem dbs events key good again =
      let first = process_parsed_batch E self now (with_last faults problem) dbs events in
      let second = process_parsed_batch E self now' faults' first.0 events in
      let (w, went, all, bad) =
        process_batch-HalfDone faults problem dbs refresh_touched "vault_state:dual"
          (handle E self now faults.statement) events good in
      let once =
        refresh_touched-Accounts now key (entries_of E X self events) (start dbs) w
          (each_event-Posted E self now faults.statement events (start dbs) w went) in
      let twice = process_parsed_batch-Accounts now' faults' first.0 events key again in
      let same : first.0.legacy ≡ dbs.legacy = ap (λ (out : Outcome J X). out.0.legacy) bad in
      (
        ap (λ (out : Outcome J X). out.1) bad,
        same,
        subst (λ (out : Outcome J X). KgBalanced key (entries_of E X self events) dbs.kg out.0.kg)
            (sym bad) once.kg,
        subst
            (λ (l : Legacy J.Time).
              Balanced key (entries_of E X self events) (find l.vaults key)
                (find second.0.legacy.vaults key))
            same twice.legacy,
        twice.kg,
      )
