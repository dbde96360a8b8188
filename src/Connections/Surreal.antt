-- ===== src/Connections/Surreal.antt =====
-- `ReconnectingSurreal` of crates/projections/src/resilience/connection_manager.rs. Its methods are cut
-- at the points where another task may run: the flag is read, a lock is taken, a lock is released. A
-- connection is a number; of the tasks it is counted where they stand.
pub mod Races
use intuition_core.Base.{
  ℕ, ◌+◌, ◌-◌, ◌≡◌, Bool, true, false, not, ◌&&◌, Option, none, some, List, [], ◌∷◌, ltb, ◌==◌,
  if◌then◌else◌,
}

pub record Handle : Type 0 where
  pub connection : Option ℕ
  pub connected : Bool
  -- Guards of the read lock that are held, and whether the write lock is.
  pub readers : ℕ
  pub writing : Bool
  -- Tasks in `get_connection` that wait for the read lock or for the write lock, and tasks in
  -- `mark_disconnected` that have set the flag.
  pub to_read : ℕ
  pub to_write : ℕ
  pub marking : ℕ

unfoldable pub new : ℕ → Handle
new db = record {
  connection = some db;
  connected = true;
  readers = 0;
  writing = false;
  to_read = 0;
  to_write = 0;
  marking = 0;
}

pub data Action : Type 0 where
  -- `get_connection`: the flag, the read lock and the release of its guard; the write lock, and under it
  -- a slot that is found filled, a reconnection, or a failed one.
  loads_flag takes_read drops_read takes_write finds_slot fails : Action
  reconnects : ℕ → Action
  -- `mark_disconnected`: the flag, then the slot.
  clears_flag tries_write : Action

abbrev is_filled : Option ℕ → Bool
is_filled none = false
is_filled (some _) = true

abbrev only : Bool → Handle → Option Handle
only true h = some h
only false h = none

-- The handle after an action, where it can happen.
unfoldable pub act : Handle → Action → Option Handle
act h loads_flag =
    if h.connected
    then some (record h { to_read = h.to_read + 1 })
    else some (record h { to_write = h.to_write + 1 })
act h takes_read =
    only (not h.writing && ltb 0 h.to_read)
      (record h { to_read = h.to_read - 1; readers = h.readers + 1 })
act h drops_read = only (ltb 0 h.readers) (record h { readers = h.readers - 1 })
act h takes_write =
    only (not h.writing && (h.readers == 0 && ltb 0 h.to_write))
      (record h { to_write = h.to_write - 1; writing = true })
act h finds_slot =
    only (h.writing && is_filled h.connection)
      (record h { connected = true; writing = false; to_read = h.to_read + 1 })
act h (reconnects db) =
    only (h.writing && not (is_filled h.connection)) (record h {
      connection = some db;
      connected = true;
      writing = false;
      to_read = h.to_read + 1;
    })
act h fails = only (h.writing && not (is_filled h.connection)) (record h { writing = false })
act h clears_flag = some (record h { connected = false; marking = h.marking + 1 })
act h tries_write = only (ltb 0 h.marking) (record h {
  marking = h.marking - 1;
  connection = if not h.writing && h.readers == 0 then none else h.connection;
})

-- What can happen to a handle, action by action.
pub data Reaches : Handle → List Action → Handle → Type 0 where
  stays : {h : Handle} → Reaches h [] h
  acts :
      {h next last : Handle} (a : Action) (as' : List Action)
      → act h a ≡ some next
      → Reaches next as' last
      → Reaches h (a ∷ as') last
