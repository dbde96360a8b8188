-- ===== src/Connections/Surreal/Races.antt =====
-- What the locks of `ReconnectingSurreal` in
-- crates/projections/src/resilience/connection_manager.rs exclude, and what they do not.
use intuition_core.Base.{ℕ, ◌+◌, ◌≤◌, ◌≡◌, ◌⊎◌, refl, arith, true, false, none, some, List, [], ◌∷◌}
use intuition_core.Connections.Surreal.{
  Handle, new, Action, loads_flag, takes_read, drops_read, takes_write, finds_slot, fails,
  reconnects, clears_flag, tries_write, act, Reaches, stays, acts,
}

-- A writer excludes readers.
abbrev pub IsExclusive : Handle → Type 0
IsExclusive h = h.writing ≡ true → h.readers ≡ 0

act-IsExclusive : (h h' : Handle) (a : Action) → act h a ≡ some h' → IsExclusive h → IsExclusive h'
unfolding act
act-IsExclusive h h' loads_flag e v = ground arith
act-IsExclusive h h' takes_read e v = ground arith
act-IsExclusive h h' drops_read e v = ground arith
act-IsExclusive h h' takes_write e v = ground arith
act-IsExclusive h h' finds_slot e v = ground arith
act-IsExclusive h h' fails e v = ground arith
act-IsExclusive h h' (reconnects db) e v = ground arith
act-IsExclusive h h' clears_flag e v = ground arith
act-IsExclusive h h' tries_write e v = ground arith

Reaches-IsExclusive :
    (h h' : Handle) (as' : List Action) → Reaches h as' h' → IsExclusive h → IsExclusive h'
Reaches-IsExclusive h h' _ stays v = v
Reaches-IsExclusive h h' _ (acts a as' e rest) v =
    Reaches-IsExclusive _ h' as' rest (act-IsExclusive h _ a e v)

-- An action leaves the connection; or the writer fills the empty slot, sets the flag and lets go of the lock;
-- or the slot is emptied while nobody reads or writes.
abbrev pub Changes : Handle → Handle → Type 0
Changes h h' =
    (h'.connection ≡ h.connection)
    ⊎ ((h.connection ≡ none) × (h.writing ≡ true) × (h'.connected ≡ true) × (h'.writing ≡ false))
    ⊎ ((h'.connection ≡ none) × (h.readers ≡ 0) × (h.writing ≡ false))

act-Changes : (h h' : Handle) (a : Action) → act h a ≡ some h' → Changes h h'
unfolding act
act-Changes h h' loads_flag e = ground arith
act-Changes h h' takes_read e = ground arith
act-Changes h h' drops_read e = ground arith
act-Changes h h' takes_write e = ground arith
act-Changes h h' finds_slot e = ground arith
act-Changes h h' fails e = ground arith
act-Changes h h' (reconnects db) e = ground arith
act-Changes h h' clears_flag e = ground arith
act-Changes h h' tries_write e = ground arith

-- In whatever order the tasks run after the handle was opened: while the write lock is held nobody
-- reads; and an action leaves the connection as it is, or fills the slot, found empty under the write lock,
-- sets the flag and releases the lock, or empties the slot while nobody reads or writes.
pub Reaches-guarded :
    (db : ℕ) (h h' : Handle) (as' : List Action) (a : Action)
    → Reaches (new db) as' h
    → act h a ≡ some h'
    → IsExclusive h × Changes h h'
unfolding new
Reaches-guarded db h h' as' a reached e =
    (Reaches-IsExclusive (new db) h as' reached (λ q. refl), act-Changes h h' a e)

abbrev pub filled : Handle → ℕ
filled h = elim h.connection [ none ↦ 0 | some _ ↦ 1 ]

abbrev pub reconnections : List Action → ℕ
reconnections [] = 0
reconnections (reconnects _ ∷ as') = reconnections as' + 1
reconnections (_ ∷ as') = reconnections as'

abbrev pub marks : List Action → ℕ
marks [] = 0
marks (tries_write ∷ as') = marks as' + 1
marks (_ ∷ as') = marks as'

act_counts :
    (h h' : Handle) (a : Action) (as' : List Action)
    → act h a ≡ some h'
    → reconnections (a ∷ as') + (filled h + marks as')
      ≤ reconnections as' + (filled h' + marks (a ∷ as'))
unfolding act
act_counts h h' loads_flag as' e = ground arith
act_counts h h' takes_read as' e = ground arith
act_counts h h' drops_read as' e = ground arith
act_counts h h' takes_write as' e = ground arith
act_counts h h' finds_slot as' e = ground arith
act_counts h h' fails as' e = ground arith
act_counts h h' (reconnects db) as' e = ground arith
act_counts h h' clears_flag as' e = ground arith
act_counts h h' tries_write as' e = ground arith

Reaches-counts :
    (h h' : Handle) (as' : List Action)
    → Reaches h as' h'
    → reconnections as' + filled h ≤ filled h' + marks as'
Reaches-counts h h' _ stays = omega arith
Reaches-counts h h' _ (acts a as' e rest) =
    omega (arith, Reaches-counts _ h' as' rest, act_counts h _ a as' e)

filled_le : (h : Handle) → filled h ≤ 1
filled_le h = ground arith

-- However many tasks ask for the connection at once: since the handle was opened there were at most as
-- many reconnections as calls that marked the connection broken.
pub Reaches-reconnections :
    (db : ℕ) (h : Handle) (as' : List Action)
    → Reaches (new db) as' h
    → reconnections as' ≤ marks as'
unfolding new
Reaches-reconnections db h as' reached =
    omega (arith, Reaches-counts (new db) h as' reached, filled_le h)

-- Where a task holds a guard at the moment another marks the connection broken, the mark is lost: the
-- flag is cleared, but the slot keeps the connection, and the next task that asks finds it there and
-- sets the flag again.
pub Reaches-lost_mark :
    (h : Handle) (db : ℕ)
    → h.connection ≡ some db
    → h.writing ≡ false
    → h.readers ≡ 1
    → Reaches h
        (clears_flag ∷ tries_write ∷ drops_read ∷ loads_flag ∷ takes_write ∷ finds_slot ∷ [])
        (record h { connected = true; readers = 0; to_read = h.to_read + 1 })
unfolding act
Reaches-lost_mark h db filled free one =
    acts {next = record h { connected = false; marking = h.marking + 1 }} clears_flag _ refl (
      acts {next = record h { connected = false }} tries_write _ (ground arith) (
        acts {next = record h { connected = false; readers = 0 }} drops_read _ (ground arith) (
          acts {next = record h { connected = false; readers = 0; to_write = h.to_write + 1 }}
            loads_flag _ refl
            (acts {next = record h { connected = false; readers = 0; writing = true }} takes_write _
              (ground arith)
              (acts {next = record h { connected = true; readers = 0; to_read = h.to_read + 1 }}
                finds_slot _ (ground arith) stays)))))
