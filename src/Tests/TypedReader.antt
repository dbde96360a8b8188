-- ===== src/Tests/TypedReader.antt =====
-- A deposit and a redemption, each in the table of its kind.
use Prim.Native.String.{String}
use intuition_core.Base.{
  ℕ, ◌≡◌, ◌≢◌, ◌↔◌, ◌∙◌, refl, sym, ap, inl, inr, arith, true, Option, none, some, List, [], ◌∷◌,
  map, In,
}
use intuition_core.Events.{EventType, deposited, redeemed, as_str, StoredEvent}
use intuition_core.Workers.Store as Store
use intuition_core.Workers.TypedReader.{TypedRow, TypedTables, entity_of, select, read_batch_multi}
use intuition_core.Workers.TypedReader.Ordered.{Distinct}
use intuition_core.Workers.TypedReader.Union.{
  AreMirrored, as_typed, as_str_injective, read_batch_multi-read_batch_multi,
}
use intuition_core.Tests.Events.{json, payload_of}

abbrev row : ℕ → (t : EventType) → TypedRow json t
row n t = record {
  sequence_number = n;
  block_number = 100;
  block_timestamp = 1000;
  block_hash = "h";
  transaction_hash = "t";
  log_index = n;
  columns = payload_of t;
}

abbrev rows : (t : EventType) → List (TypedRow json t)
rows deposited = row 9 deposited ∷ []
rows redeemed = row 7 redeemed ∷ []
rows EventType.atom_created = []
rows EventType.atom_context_registered = []
rows EventType.triple_created = []
rows EventType.share_price_changed = []
rows EventType.protocol_fee_accrued = []

abbrev tables : TypedTables json
tables = record { rows = rows; jsonb_build_object = λ t d. 1 }

abbrev mirrored_store : List (StoredEvent json)
mirrored_store =
    select tables redeemed (row 7 redeemed) ∷ select tables deposited (row 9 deposited) ∷ []

-- The event store, with other entities and the times at which the events were ingested.
abbrev event_store : List (StoredEvent json)
event_store =
    record (select tables redeemed (row 7 redeemed)) { entity_id = none; ingested_at = 1005 }
    ∷ record (select tables deposited (row 9 deposited)) {
      entity_id = some "0xv";
      ingested_at = 1007;
    }
    ∷ []

-- The entity of the tables.
abbrev entity : StoredEvent json → Option String
entity e = entity_of ℕ deposited (payload_of deposited)

-- The kind of a stored row.
kind :
    (t u : EventType) (n : ℕ) (e : StoredEvent json)
    → e ≡ select tables u (row n u)
    → e.event_type ≡ as_str t
    → t ≡ u
unfolding select
kind t u n e m q = as_str_injective t u (sym q ∙ ap (λ (z : StoredEvent json). z.event_type) m)

of_row :
    (u : EventType) (n : ℕ) (e : StoredEvent json)
    → In e mirrored_store
    → e ≡ select tables u (row n u)
    → In e mirrored_store × (e.event_type ≡ as_str u) × (e.is_canonical ≡ true)
unfolding select
of_row u n e s m = (
  s,
  ap (λ (z : StoredEvent json). z.event_type) m,
  ap (λ (z : StoredEvent json). z.is_canonical) m,
)

no_row :
    (t : EventType) (e : StoredEvent json)
    → t ≢ deposited
    → t ≢ redeemed
    → In e mirrored_store
    → e.event_type ≡ as_str t
    → ⊥
no_row t e d r (inl m) q = r (kind t redeemed 7 e m q)
no_row t e d r (inr (inl m)) q = d (kind t deposited 9 e m q)
no_row t e d r (inr (inr m)) q = absurd m

mirrors :
    (t : EventType) (e : StoredEvent json)
    → In e (map (select tables t) (rows t))
      ↔ (In e mirrored_store × (e.event_type ≡ as_str t) × (e.is_canonical ≡ true))
mirrors deposited e = (
  λ m. elim m [ inl q ↦ of_row deposited 9 e (inr (inl q)) q | inr k ↦ absurd k ],
  λ m. elim m.0 [
    | inl q ↦
        let p : deposited ≡ redeemed = kind deposited redeemed 7 e q m.1 in
        absurd (ground (arith, p))
    | inr k ↦ k
  ],
)
mirrors redeemed e = (
  λ m. elim m [ inl q ↦ of_row redeemed 7 e (inl q) q | inr k ↦ absurd k ],
  λ m. elim m.0 [
    | inl q ↦ inl q
    | inr k ↦ elim k [
      | inl q ↦
          let p : redeemed ≡ deposited = kind redeemed deposited 9 e q m.1 in
          absurd (ground (arith, p))
      | inr l ↦ absurd l
    ]
  ],
)
mirrors EventType.atom_created e = (λ m. absurd m, λ m. no_row _ e (λ q. cc) (λ q. cc) m.0 m.1)
mirrors EventType.atom_context_registered e =
    (λ m. absurd m, λ m. no_row _ e (λ q. cc) (λ q. cc) m.0 m.1)
mirrors EventType.triple_created e = (λ m. absurd m, λ m. no_row _ e (λ q. cc) (λ q. cc) m.0 m.1)
mirrors EventType.share_price_changed e =
    (λ m. absurd m, λ m. no_row _ e (λ q. cc) (λ q. cc) m.0 m.1)
mirrors EventType.protocol_fee_accrued e =
    (λ m. absurd m, λ m. no_row _ e (λ q. cc) (λ q. cc) m.0 m.1)

single : (t : EventType) → Distinct (map (select tables t) (rows t))
single deposited = (λ f m. absurd m, tt)
single redeemed = (λ f m. absurd m, tt)
single EventType.atom_created = tt
single EventType.atom_context_registered = tt
single EventType.triple_created = tt
single EventType.share_price_changed = tt
single EventType.protocol_fee_accrued = tt

tables-AreMirrored : AreMirrored tables (map (as_typed entity) event_store)
unfolding select
tables-AreMirrored = record {
  ascends = (omega arith, (omega arith, tt));
  mirrored = λ t. mirrors t;
  single = λ t. single t;
}

different : (u : EventType) → In u (redeemed ∷ []) → deposited ≢ u
different u (inl q) k = let p : deposited ≡ redeemed = k ∙ q in absurd (ground (arith, p))
different u (inr m) k = absurd m

-- The tables are read in the order of the sequence numbers.
merged : read_batch_multi tables ("Deposited" ∷ "Redeemed" ∷ []) 0 10 ≡ some mirrored_store
unfolding read_batch_multi
merged = refl

read_batch_multi-read_batch_multi_example :
    read_batch_multi tables ("Deposited" ∷ "Redeemed" ∷ []) 0 1
    ≡ some
        (map (as_typed entity) (Store.read_batch_multi event_store (deposited ∷ redeemed ∷ []) 0 1))
unfolding as_str
read_batch_multi-read_batch_multi_example =
    read_batch_multi-read_batch_multi tables event_store (deposited ∷ redeemed ∷ []) 0 1 entity
      tables-AreMirrored (different, ((λ u m. absurd m), tt))
