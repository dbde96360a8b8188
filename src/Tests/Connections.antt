-- ===== src/Tests/Connections.antt =====
-- Three shards under a toy hash, and a handle on which one task reads while another marks it broken.
use Prim.Native.String.{String}
use intuition_core.Base.{
  ℕ, zero, suc, ◌+◌, ◌≤◌, ◌<◌, ◌≡◌, refl, arith, Bool, true, false, ◌||◌, same_text, none, some,
  length, List, [], ◌∷◌,
}
use intuition_core.Connections.Pool.{
  Polled, pending, granted, Semaphores, ConnectionTier, critical, standard, Use, polls, drops,
  new as new_pool, build_pool_partitioner, total_pool_size, run,
}
use intuition_core.Connections.Pool.Budgets.{limit_from, total_permits}
use intuition_core.Connections.Pool.Slots.{count}
use intuition_core.Connections.Pool.Permits.{idle_pool, run-new-held, build_pool_partitioner-held}
use intuition_core.Connections.Shard.{belongs_to_shard, belongs_to_shard_once}
use intuition_core.Connections.Surreal.{
  Handle, new, Action, loads_flag, takes_read, drops_read, takes_write, finds_slot, reconnects,
  clears_flag, tries_write, act, Reaches, stays, acts,
}
use intuition_core.Connections.Surreal.Races.{
  IsExclusive, Changes, Reaches-guarded, reconnections, marks, Reaches-reconnections,
  Reaches-lost_mark,
}

abbrev hash : String → String → ℕ
hash a b = 17

belongs_to_shard_once_example :
    (s : ℕ) × (s < 3)
    × (belongs_to_shard hash "0x01" "1" s 3 ≡ true)
    × ((t : ℕ) → t < 3 → belongs_to_shard hash "0x01" "1" t 3 ≡ true → t ≡ s)
belongs_to_shard_once_example = belongs_to_shard_once hash "0x01" "1" 3 (omega arith) (omega arith)

-- A reconnection after a mark.
abbrev restored : Handle
restored = record {
  connection = some 1;
  connected = true;
  readers = 0;
  writing = false;
  to_read = 1;
  to_write = 0;
  marking = 0;
}

abbrev restoring : List Action
restoring = clears_flag ∷ tries_write ∷ loads_flag ∷ takes_write ∷ reconnects 1 ∷ []

restored_reached : Reaches (new 0) restoring restored
unfolding act new
restored_reached = acts clears_flag _ refl (
    acts tries_write _ refl
      (acts loads_flag _ refl (acts takes_write _ refl (acts (reconnects 1) _ refl stays))))

Reaches-guarded_example :
    IsExclusive restored × Changes restored (record restored { to_read = 0; readers = 1 })
unfolding act
Reaches-guarded_example =
    Reaches-guarded 0 restored (record restored { to_read = 0; readers = 1 }) restoring takes_read
      restored_reached refl

Reaches-reconnections_example : reconnections restoring ≤ marks restoring
Reaches-reconnections_example = Reaches-reconnections 0 restored restoring restored_reached

Reaches-lost_mark_example :
    Reaches
      (record restored { to_read = 0; readers = 1 })
      (clears_flag ∷ tries_write ∷ drops_read ∷ loads_flag ∷ takes_write ∷ finds_slot ∷ [])
      (record restored { connected = true; readers = 0; to_read = 0 + 1 })
Reaches-lost_mark_example =
    Reaches-lost_mark (record restored { to_read = 0; readers = 1 }) 1 refl refl refl

-- Counting semaphores, and two projections of which one is polled three times.
taken : ℕ → Polled ℕ
taken zero = pending
taken (suc n) = granted n

counts : (s t : ℕ) → taken s ≡ granted t → s ≡ t + 1
unfolding taken
counts zero t e = cc
counts (suc n) t e = let same : n ≡ t = cc e in omega (arith, same)

abbrev counting : Semaphores
unfolding taken
counting = record {
  Semaphore = ℕ;
  create = λ n. n;
  permits_of = λ n. n;
  poll = taken;
  release = λ n. n + 1;
  permits_of-create = λ n. refl;
  permits_of-poll = λ s t e. counts s t e;
  permits_of-release = λ n. refl;
}

abbrev registered : List (String × ConnectionTier)
registered = ("vault_state", critical) ∷ ("event_log", standard) ∷ []

abbrev uses : List Use
uses =
    polls "event_log" false
    ∷ polls "event_log" false
    ∷ polls "event_log" true
    ∷ drops "event_log"
    ∷ polls "nobody" false
    ∷ []

run-new-held_example :
    (count
        (run counting
          (idle_pool counting (new_pool counting none none registered (some 9) none))
          uses).held
        "event_log"
      ≤ limit_from 0 registered "event_log")
    × (length
          (run counting
            (idle_pool counting (new_pool counting none none registered (some 9) none))
            uses).held
        ≤ total_permits registered)
run-new-held_example = run-new-held counting none none registered (some 9) none uses "event_log"

abbrev enabled : String → Bool
enabled name = same_text name "vault_state" || same_text name "event_log"

build_pool_partitioner-held_example :
    length
      (run counting
        (idle_pool counting (build_pool_partitioner counting none (some 2) enabled none none))
        uses).held
    ≤ total_pool_size counting (build_pool_partitioner counting none (some 2) enabled none none)
build_pool_partitioner-held_example =
    build_pool_partitioner-held counting (some 2) enabled none uses
