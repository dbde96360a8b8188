-- ===== src/Resilience/Watchdog.antt =====
-- crates/projections/src/resilience/watchdog.rs. Instants are milliseconds, durations nanoseconds; a
-- method takes the instant `now` that it reads. The sentinel -1 of `last_beat_ms` is `none`, and the
-- cast of the elapsed milliseconds to `i64` is exact for 292 million years.
pub mod Stalls
use Prim.Native.String.{String}
use intuition_core.Base.{
  ℕ, ◌+◌, ◌-◌, ◌*◌, Bool, true, false, Option, none, some, List, [], ◌∷◌, ◌++◌, ltb, leb,
  if◌then◌else◌,
}

pub record Heartbeat : Type 0 where
  pub last_beat_ms : Option ℕ
  pub reference : ℕ

unfoldable pub new_heartbeat : ℕ → Heartbeat
new_heartbeat now = record { last_beat_ms = none; reference = now }

unfoldable pub beat : Heartbeat → ℕ → Heartbeat
beat hb now = record hb { last_beat_ms = some (now - hb.reference) }

-- A duration, in nanoseconds; `(now_ms - last_ms).max(0)` is truncated subtraction.
elapsed_from : Option ℕ → ℕ → Option ℕ
elapsed_from none now_ms = none
elapsed_from (some last_ms) now_ms = some ((now_ms - last_ms) * 1_000_000)

unfoldable pub elapsed_since_last_beat : Heartbeat → ℕ → Option ℕ
unfolding elapsed_from
elapsed_since_last_beat hb now = elapsed_from hb.last_beat_ms (now - hb.reference)

-- A registered worker with what the loop of `run` keeps of it: its token, its flag in `stalled` and
-- the counter of `record_stall_detected`.
pub record WatchedWorker : Type 0 where
  pub name : String
  pub heartbeat : Heartbeat
  pub cancelled : Bool
  pub stalled : Bool
  pub stalls_detected : ℕ

pub record Watchdog : Type 0 where
  pub workers : List WatchedWorker
  pub check_interval : ℕ
  pub stall_threshold : ℕ

unfoldable pub new : ℕ → ℕ → Watchdog
new check_interval stall_threshold = record {
  workers = [];
  check_interval = check_interval;
  stall_threshold = stall_threshold;
}

unfoldable pub with_defaults : Watchdog
unfolding new
with_defaults = new 10_000_000_000 120_000_000_000

unfoldable pub register : Watchdog → WatchedWorker → Watchdog
register w worker = record w { workers = w.workers ++ worker ∷ [] }

-- The `match` of the loop's body, for one worker.
judge : ℕ → WatchedWorker → Option ℕ → WatchedWorker
judge stall_threshold w none = w
judge stall_threshold w (some elapsed) =
    if ltb stall_threshold elapsed
    then if w.stalled
      then w
      else record w { cancelled = true; stalled = true; stalls_detected = w.stalls_detected + 1 }
    else if w.stalled
    then record w { stalled = false }
    else w

unfoldable pub inspect : ℕ → WatchedWorker → ℕ → WatchedWorker
unfolding judge elapsed_since_last_beat
inspect stall_threshold w now = judge stall_threshold w (elapsed_since_last_beat w.heartbeat now)

inspect_all : ℕ → List WatchedWorker → ℕ → List WatchedWorker
inspect_all stall_threshold [] now = []
inspect_all stall_threshold (w ∷ ws) now =
    inspect stall_threshold w now ∷ inspect_all stall_threshold ws now

-- One round of the loop, at the time of its tick.
unfoldable pub tick : Watchdog → ℕ → Watchdog
unfolding inspect_all
tick w now = record w { workers = inspect_all w.stall_threshold w.workers now }

-- What happens to one worker: it beats, or the watchdog inspects it.
pub data Event : Type 0 where
  beats ticks : ℕ → Event

pub observe : ℕ → WatchedWorker → Event → WatchedWorker
unfolding beat inspect
observe stall_threshold w (beats now) = record w { heartbeat = beat w.heartbeat now }
observe stall_threshold w (ticks now) = inspect stall_threshold w now

pub watch : ℕ → WatchedWorker → List Event → WatchedWorker
watch stall_threshold w [] = w
watch stall_threshold w (e ∷ es) = watch stall_threshold (observe stall_threshold w e) es
