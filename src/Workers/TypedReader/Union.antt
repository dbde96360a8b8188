-- ===== src/Workers/TypedReader/Union.antt =====
-- The union of the tables is the event store's batch: crates/projections/src/event/typed_reader.rs and
-- crates/projections/src/event/reader.rs.
use Prim.Native.String.{String}
use intuition_core.Base.{
  ℕ, zero, suc, ltb, ◌≡◌, ◌≢◌, ◌↔◌, refl, sym, ap, ◌∙◌, inl, inr, arith, true, Bool-cases,
  same_text, same_text_iff, ok, Result, List, [], ◌∷◌, map, take, filter, Option, some, In,
  In-append-cases, In-append_left, In-append_right, In-filter, In-filter-p, In-filter-In, In-take,
  Ascends, Ascends-above, Ascends-filter, subst,
}
use intuition_core.Events.{EventType, Serde, StoredEvent, as_str, from_str, UnknownEventType}
use intuition_core.Events.Envelope.{from_str_names}
use intuition_core.Workers.Store as Store
use intuition_core.Workers.Store.Reading.{and_left, and_right}
use intuition_core.Workers.TypedReader.{
  TypedTables, select, sql_fragment, fragments, key, order_by, is_behind, rows_of, union_all,
  answer, read_batch_multi,
}
use intuition_core.Workers.TypedReader.Ordered.{
  Distinct, In-order_by-In, In-order_by, order_by-Ascends, Ascends-Distinct, Distinct-append,
  Distinct-filter, Distinct-take, In-take-part, take-part, Ascends-one,
}

-- No kind twice.
abbrev pub AreDifferent : List EventType → Type 0
AreDifferent [] = Unit
AreDifferent (t ∷ ts) = ((u : EventType) → In u ts → t ≢ u) × AreDifferent ts

pub as_str_injective : (t u : EventType) → as_str t ≡ as_str u → t ≡ u
as_str_injective t u q =
    let h : ◌≡◌ {A = Result UnknownEventType EventType} (ok t) (ok u) =
      sym (from_str_names t) ∙ ap from_str q ∙ from_str_names u in
    cc

fragments-as_str : (ts : List EventType) → fragments (map as_str ts) ≡ ts
unfolding fragments sql_fragment
fragments-as_str [] = refl
fragments-as_str (t ∷ ts) = rw (from_str_names t, fragments-as_str ts) refl

any_type-cases :
    (ts : List EventType) (s : String)
    → Store.any_type ts s ≡ true
    → (t : EventType) × In t ts × (s ≡ as_str t)
any_type-cases [] s h = ground arith
any_type-cases (t ∷ ts) s h = elim (Bool-cases (same_text s (as_str t))) [
  | inl y ↦ (t, inl refl, (same_text_iff s (as_str t)).0 y)
  | inr o ↦ let (u, m, q) = any_type-cases ts s (rw o at h) in (u, inr m, q)
]

In-any_type :
    (ts : List EventType) (t : EventType) (s : String)
    → In t ts
    → s ≡ as_str t
    → Store.any_type ts s ≡ true
In-any_type [] t s m q = absurd m
In-any_type (u ∷ ts) t s m q = elim (Bool-cases (same_text s (as_str u))) [
  | inl y ↦ rw y refl
  | inr o ↦ elim m [
    | inl e ↦
        let y = (same_text_iff s (as_str u)).1 (q ∙ ap as_str e) in absurd (ground (arith, y, o))
    | inr n ↦ rw o (In-any_type ts t s n q)
  ]
]

module _ {J : Serde} where
  -- The tables hold what the event store holds that is canonical: a row for each event of the kind, with
  -- the event's columns.
  pub record AreMirrored (T : TypedTables J) (store : List (StoredEvent J)) : Type 0 where
    pub ascends : Ascends key 0 store
    pub mirrored :
        (t : EventType) (e : StoredEvent J)
        → In e (map (select T t) (T.rows t))
          ↔ (In e store × (e.event_type ≡ as_str t) × (e.is_canonical ≡ true))
    pub single : (t : EventType) → Distinct (map (select T t) (T.rows t))

module _ {J : Serde} {T : TypedTables J} {store : List (StoredEvent J)} (H : AreMirrored T store)
    (types : List EventType) (after n : ℕ) where
  abbrev wanted : List (StoredEvent J)
  wanted = filter (Store.is_after types after) store

  abbrev cut : EventType → List (StoredEvent J)
  cut t = take n (order_by (rows_of T after t))

  wanted-Ascends : Ascends key 0 wanted
  wanted-Ascends = Ascends-filter key (Store.is_after types after) 0 store H.ascends

  row-stored :
      (t : EventType) (e : StoredEvent J)
      → In e (rows_of T after t)
      → In e store × (e.event_type ≡ as_str t) × (e.is_canonical ≡ true)
  unfolding rows_of
  row-stored t e m =
      (H.mirrored t e).0 (In-filter-In (is_behind after) e (map (select T t) (T.rows t)) m)

  row-wanted :
      (t : EventType) (e : StoredEvent J) → In t types → In e (rows_of T after t) → In e wanted
  unfolding rows_of Store.is_wanted
  row-wanted t e k m =
      let (s, q, c) = row-stored t e m in
      let b = In-filter-p (is_behind after) e (map (select T t) (T.rows t)) m in
      In-filter (Store.is_after types after) e store s
        (rw (b, In-any_type types t e.event_type k q, c) refl)

  wanted-row :
      (e : StoredEvent J) → In e wanted → (t : EventType) × In t types × In e (rows_of T after t)
  unfolding rows_of Store.is_wanted
  wanted-row e m =
      let p = In-filter-p (Store.is_after types after) e store m in
      let s = In-filter-In (Store.is_after types after) e store m in
      let w = and_right _ _ p in
      let (t, k, q) = any_type-cases types e.event_type (and_left _ _ w) in
      (
        t,
        k,
        In-filter (is_behind after) e (map (select T t) (T.rows t))
            ((H.mirrored t e).1 (s, q, and_right _ _ w)) (and_left _ _ p),
      )

  rows-Distinct : (t : EventType) → Distinct (rows_of T after t)
  unfolding rows_of
  rows-Distinct t = Distinct-filter (is_behind after) (map (select T t) (T.rows t)) (H.single t)

  order-Ascends : (t : EventType) → Ascends key 0 (order_by (rows_of T after t))
  order-Ascends t =
      order_by-Ascends 0 (rows_of T after t) (rows-Distinct t)
        (λ e m. Ascends-above key 0 store e H.ascends (row-stored t e m).0)

  cut-row : (t : EventType) (e : StoredEvent J) → In e (cut t) → In e (rows_of T after t)
  cut-row t e m =
      In-order_by-In e (rows_of T after t) (In-take n e (order_by (rows_of T after t)) m)

  -- Where a member of the union comes from.
  union-row :
      (ts : List EventType) (e : StoredEvent J)
      → In e (union_all T after n ts)
      → (t : EventType) × In t ts × In e (rows_of T after t)
  unfolding union_all
  union-row [] e m = absurd m
  union-row (t ∷ ts) e m = elim (In-append-cases e (cut t) (union_all T after n ts) m) [
    | inl l ↦ (t, inl refl, cut-row t e l)
    | inr r ↦ let (u, k, h) = union-row ts e r in (u, inr k, h)
  ]

  In-union :
      (ts : List EventType) (t : EventType) (e : StoredEvent J)
      → ((u : EventType) → In u ts → In u types)
      → In t ts
      → In e (rows_of T after t)
      → In e (take n wanted)
      → In e (union_all T after n ts)
  unfolding union_all
  In-union [] t e sub k h m = absurd k
  In-union (u ∷ ts) t e sub (inr k) h m =
      In-append_right e (cut u) (union_all T after n ts)
        (In-union ts t e (λ v j. sub v (inr j)) k h m)
  In-union (u ∷ ts) t e sub (inl q) h m =
      let h' : In e (rows_of T after u) = subst (λ (v : EventType). In e (rows_of T after v)) q h in
      In-append_left e (cut u) (union_all T after n ts) (
        In-take-part n 0 0 wanted (order_by (rows_of T after u)) e wanted-Ascends (order-Ascends u)
          (λ z j. row-wanted u z (sub u (inl refl)) (In-order_by-In z (rows_of T after u) j)) m
          (In-order_by e (rows_of T after u) h'))

  union-Distinct : (ts : List EventType) → AreDifferent ts → Distinct (union_all T after n ts)
  unfolding union_all
  union-Distinct [] d = tt
  union-Distinct (t ∷ ts) (d, ds) =
      Distinct-append (cut t) (union_all T after n ts)
        (Distinct-take n (order_by (rows_of T after t)) (Ascends-Distinct 0 _ (order-Ascends t)))
        (union-Distinct ts ds)
        (λ e f m k.
          let (s, q, c) = row-stored t e (cut-row t e m) in
          let (u, j, h) = union-row ts f k in
          let (s', q', c') = row-stored u f h in
          λ same.
            let one = Ascends-one 0 store e f H.ascends s s' same in
            d u j
              (as_str_injective t u (sym q ∙ ap (λ (z : StoredEvent J). z.event_type) one ∙ q')))

  -- What is left to sort and to cut.
  cut-wanted :
      (rs : List (StoredEvent J))
      → Distinct rs
      → ((e : StoredEvent J) → In e rs → In e wanted)
      → ((e : StoredEvent J) → In e (take n wanted) → In e rs)
      → take n (order_by rs) ≡ take n wanted
  cut-wanted rs d sub has =
      take-part n 0 0 wanted (order_by rs) wanted-Ascends
        (order_by-Ascends 0 rs d (λ e m. Ascends-above key 0 wanted e wanted-Ascends (sub e m)))
        (λ e m. sub e (In-order_by-In e rs m)) (λ e m. In-order_by e rs (has e m))

only :
    {J : Serde} (T : TypedTables J) (after : ℕ) (t u : EventType) (e : StoredEvent J)
    → In u (t ∷ [])
    → In e (rows_of T after u)
    → In e (rows_of T after t)
only T after t u e (inl q) h = subst (λ (v : EventType). In e (rows_of T after v)) q h
only T after t u e (inr k) h = absurd k

-- Without a type nothing is wanted.
none_wanted :
    {J : Serde} (store : List (StoredEvent J)) (after : ℕ)
    → filter (Store.is_after [] after) store ≡ []
unfolding Store.is_wanted
none_wanted [] after = refl
none_wanted (e ∷ es) after = elim (Bool-cases (ltb after (key e))) [
  | inl y ↦ rw y (none_wanted es after)
  | inr o ↦ rw o (none_wanted es after)
]

take_none : {A : Type 0} (n : ℕ) → take {A = A} n [] ≡ []
take_none zero = refl
take_none (suc n) = refl

answer-wanted :
    {J : Serde} (T : TypedTables J) (store : List (StoredEvent J)) (t : EventType)
    (ts : List EventType) (after n : ℕ)
    → AreMirrored T store
    → AreDifferent (t ∷ ts)
    → answer T after n (t ∷ ts) ≡ some (take n (filter (Store.is_after (t ∷ ts) after) store))
unfolding answer
answer-wanted T store t [] after n H d = ap some (
    cut-wanted H (t ∷ []) after n (rows_of T after t) (rows-Distinct H (t ∷ []) after n t)
      (λ e m. row-wanted H (t ∷ []) after n t e (inl refl) m)
      (λ e m.
        let (u, k, h) =
          wanted-row H (t ∷ []) after n e (In-take n e (wanted H (t ∷ []) after n) m) in
        only T after t u e k h))
answer-wanted T store t (u ∷ us) after n H d =
    let ts = t ∷ u ∷ us in
    ap some (
      cut-wanted H ts after n (union_all T after n ts) (union-Distinct H ts after n ts d)
        (λ e m. let (v, k, h) = union-row H ts after n ts e m in row-wanted H ts after n v e k h)
        (λ e m.
          let (v, k, h) = wanted-row H ts after n e (In-take n e (wanted H ts after n) m) in
          In-union H ts after n ts v e (λ w j. j) k h m))

-- The event store's event as the tables have it: they do not know when it was ingested, and name the entity
-- in their own way.
abbrev pub as_typed : {J : Serde} → (StoredEvent J → Option String) → StoredEvent J → StoredEvent J
as_typed entity e = record e { entity_id = entity e; ingested_at = e.block_timestamp }

filter-as_typed :
    {J : Serde} (entity : StoredEvent J → Option String) (types : List EventType) (after : ℕ)
    (store : List (StoredEvent J))
    → filter (Store.is_after types after) (map (as_typed entity) store)
      ≡ map (as_typed entity) (filter (Store.is_after types after) store)
unfolding Store.is_wanted
filter-as_typed entity types after [] = refl
filter-as_typed entity types after (e ∷ es) = elim (Bool-cases (Store.is_after types after e)) [
  | inl y ↦ rw (y, filter-as_typed entity types after es) refl
  | inr o ↦ rw (o, filter-as_typed entity types after es) refl
]

take-as_typed :
    {J : Serde} (entity : StoredEvent J → Option String) (n : ℕ) (es : List (StoredEvent J))
    → take n (map (as_typed entity) es) ≡ map (as_typed entity) (take n es)
take-as_typed entity zero es = refl
take-as_typed entity (suc n) [] = refl
take-as_typed entity (suc n) (e ∷ es) = rw (take-as_typed entity n es) refl

mirrored-read_batch_multi :
    {J : Serde} (T : TypedTables J) (store : List (StoredEvent J)) (types : List EventType)
    (after n : ℕ)
    → AreMirrored T store
    → AreDifferent types
    → read_batch_multi T (map as_str types) after n
      ≡ some (Store.read_batch_multi store types after n)
unfolding read_batch_multi answer Store.read_batch_multi Store.is_wanted
mirrored-read_batch_multi T store [] after n H d =
    rw (none_wanted store after, take_none {A = StoredEvent _} n) refl
mirrored-read_batch_multi T store (t ∷ ts) after n H d =
    rw (fragments-as_str (t ∷ ts)) (answer-wanted T store t ts after n H d)

-- With a table for each kind of event that holds the event store's canonical events of that kind, except
-- that `ingested_at` is the time of the block and `entity_id` is named in any other way, no two with one
-- sequence number, and a name given at most once: for the same names, position and size,
-- `TypedEventReader` reads of the tables, in the same order, the events that `EventReader` reads of the
-- event store, with these two fields changed.
pub read_batch_multi-read_batch_multi :
    {J : Serde} (T : TypedTables J) (store : List (StoredEvent J)) (types : List EventType)
    (after n : ℕ) (entity : StoredEvent J → Option String)
    → AreMirrored T (map (as_typed entity) store)
    → AreDifferent types
    → read_batch_multi T (map as_str types) after n
      ≡ some (map (as_typed entity) (Store.read_batch_multi store types after n))
unfolding Store.read_batch_multi
read_batch_multi-read_batch_multi T store types after n entity H d =
    mirrored-read_batch_multi T (map (as_typed entity) store) types after n H d
    ∙ ap some (
        ap (λ (es : List (StoredEvent _)). take n es) (filter-as_typed entity types after store)
        ∙ take-as_typed entity n (filter (Store.is_after types after) store))
