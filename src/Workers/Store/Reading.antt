-- ===== src/Workers/Store/Reading.antt =====
-- What a batch read from the event store holds: crates/projections/src/event/reader.rs.
use intuition_core.Base.{
  ℕ, ◌≤◌, ◌<◌, ◌≡◌, Bool, true, false, ◌&&◌, some, List, In, In-filter, In-filter-p, In-filter-In,
  In-take, last-In, Ascends, Ascends-filter, top, In-le_top, In-take_of_le, last, filter, lt→ltb,
  ltb→lt, arith,
}
use intuition_core.Events.{EventType, Serde, StoredEvent}
use intuition_core.Workers.Store.{read_batch_multi, is_wanted, is_after}

pub and_left : (a b : Bool) → (a && b) ≡ true → a ≡ true
and_left true b h = ground arith
and_left false b h = ground arith

pub and_right : (a b : Bool) → (a && b) ≡ true → b ≡ true
and_right true b h = ground arith
and_right false b h = ground arith

abbrev pub seq : {J : Serde} → StoredEvent J → ℕ
seq e = e.sequence_number

module _ {J : Serde} where
  -- A batch read after `c` that ends with `l` holds every wanted event between them.
  pub batch_complete :
      (store : List (StoredEvent J)) (types : List EventType) (c n : ℕ) (l e : StoredEvent J)
      → Ascends seq 0 store
      → last (read_batch_multi store types c n) ≡ some l
      → In e store
      → is_wanted types e ≡ true
      → c < e.sequence_number
      → e.sequence_number ≤ l.sequence_number
      → In e (read_batch_multi store types c n)
  unfolding read_batch_multi
  batch_complete store types c n l e asc q m w lt le =
      let after : is_after types c e ≡ true = rw (lt→ltb c e.sequence_number lt) w in
      In-take_of_le seq 0 n (filter (is_after types c) store) l e
        (Ascends-filter seq (is_after types c) 0 store asc) q
        (In-filter (is_after types c) e store m after) le

  -- The last event of a batch lies above the checkpoint, and in the store.
  pub batch_last :
      (store : List (StoredEvent J)) (types : List EventType) (c n : ℕ) (l : StoredEvent J)
      → Ascends seq 0 store
      → last (read_batch_multi store types c n) ≡ some l
      → (c < l.sequence_number) × (l.sequence_number ≤ top seq 0 store)
  unfolding read_batch_multi
  batch_last store types c n l asc q =
      let m = In-take n l (filter (is_after types c) store) (last-In _ l q) in
      let p = In-filter-p (is_after types c) l store m in
      let above = In-le_top seq 0 store l asc (In-filter-In (is_after types c) l store m) in
      (ltb→lt c l.sequence_number (and_left _ _ p), above)
