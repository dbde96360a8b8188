-- ===== src/Resilience/Supervisor.antt =====
-- crates/projections/src/resilience/supervisor.rs and supervised_adapters.rs. Instants and durations
-- are nanoseconds. What one round of the loop observes (the clock, the token, the worker's outcome, the
-- random number) is a record, so a run of the supervisor is a list of such rounds.
pub mod Backoff
pub mod Healthy
use Prim.Native.String.{String}
use intuition_core.Base.{
  ℕ, ◌+◌, ◌-◌, ◌*◌, ◌/◌, ◌%◌, ◌^◌, min, Bool, false, Option, none, some, List, [], ◌∷◌, ltb, leb,
  ◌==◌, if◌then◌else◌, Result, ok, err,
}
use intuition_core.Errors.{
  ErrorClass, fatal, transient, circuit_protected, ProjectionError, classify,
}

abbrev pub initial_backoff : ℕ
initial_backoff = 1_000_000_000

abbrev pub backoff_ceiling : ℕ
backoff_ceiling = 30_000_000_000

abbrev pub healthy_period : ℕ
healthy_period = 300_000_000_000

pub data WorkerError : Type 0 where
  transient_failure fatal_failure : String → WorkerError

-- The text of an error is the library's; `to_text` stands for it.
error_of_class : ErrorClass → String → WorkerError
error_of_class transient text = transient_failure text
error_of_class circuit_protected text = transient_failure text
error_of_class fatal text = fatal_failure text

unfoldable pub to_worker_error :
    {X : Type 0} → (ProjectionError X → String) → ProjectionError X → WorkerError
unfolding error_of_class
to_worker_error to_text e = error_of_class (classify e) (to_text e)

-- How the spawned task ended.
pub data Outcome : Type 0 where
  returned : Result WorkerError (Unit {0}) → Outcome
  panicked aborted : Outcome

pub record Supervisor : Type 0 where
  pub name : String
  pub restart_count : ℕ
  pub consecutive_failures : ℕ
  pub current_backoff : ℕ
  pub last_healthy_at : Option ℕ
  pub min_backoff : ℕ
  pub max_backoff : ℕ
  pub healthy_reset_after : ℕ

unfoldable pub new : String → Supervisor
new name = record {
  name = name;
  restart_count = 0;
  consecutive_failures = 0;
  current_backoff = initial_backoff;
  last_healthy_at = none;
  min_backoff = initial_backoff;
  max_backoff = backoff_ceiling;
  healthy_reset_after = healthy_period;
}

-- One round: the four looks at the global token, the three readings of the clock, the end of the
-- worker's task, and the random number of the jitter.
pub record Round : Type 0 where
  pub shut_down_before : Bool
  pub resumed_at : ℕ
  pub started_at : ℕ
  pub outcome : Outcome
  pub shut_down_after : Bool
  pub checked_at : ℕ
  pub shut_down_late : Bool
  pub random : ℕ
  pub shut_down_asleep : Bool

-- The counters of failures and restarts wrap, as the release build compiles them.
abbrev next_u32 : ℕ → ℕ
next_u32 n = (n + 1) % 2 ^ 32

note_healthy : Supervisor → ℕ → ℕ → Supervisor
note_healthy s run_started_at now =
    if leb s.healthy_reset_after (now - run_started_at)
    then record s { last_healthy_at = some run_started_at }
    else s

unfoldable pub record_transient_failure : Supervisor → ℕ → ℕ → Supervisor
unfolding note_healthy
record_transient_failure s run_started_at now =
    note_healthy (record s { consecutive_failures = next_u32 s.consecutive_failures })
      run_started_at now

should_reset : Supervisor → Option ℕ → ℕ → Bool
should_reset s none now = false
should_reset s (some t) now = ltb (now - t) (s.healthy_reset_after * 2)

unfoldable pub maybe_reset_backoff : Supervisor → ℕ → Supervisor
unfolding should_reset
maybe_reset_backoff s now =
    if should_reset s s.last_healthy_at now
    then record s {
      current_backoff = s.min_backoff;
      consecutive_failures = 0;
      last_healthy_at = none;
    }
    else s

unfoldable pub apply_jitter : ℕ → ℕ → ℕ
apply_jitter base random =
    let base_ms = base / 1_000_000 % 2 ^ 64 in
    if base_ms == 0 then base else (base_ms / 2 + random % 2 ^ 64 % (base_ms + 1)) * 1_000_000

pub data Reason : Type 0 where
  shut_down fatal_error : Reason

-- A round ends the supervisor, or sleeps for a time and goes on.
pub data Next : Type 0 where
  stops : Reason → Supervisor → Next
  restarts : ℕ → Supervisor → Next

clean_exit : Supervisor → Round → Next
unfolding note_healthy
clean_exit s r =
    let s' = note_healthy s r.started_at r.checked_at in
    if r.shut_down_late
    then stops shut_down s'
    else if r.shut_down_asleep
    then stops shut_down s'
    else restarts s'.min_backoff s'

back_off : Supervisor → Round → Next
unfolding apply_jitter
back_off s r =
    if r.shut_down_asleep
    then stops shut_down s
    else restarts (apply_jitter s.current_backoff r.random)
        (record s { current_backoff = min (s.current_backoff * 2) s.max_backoff })

interpret : Outcome → Supervisor → Round → Next
unfolding clean_exit back_off record_transient_failure
interpret (returned (ok _)) s r = clean_exit s r
interpret (returned (err (transient_failure _))) s r =
    back_off (record_transient_failure s r.started_at r.checked_at) r
interpret (returned (err (fatal_failure _))) s r = stops fatal_error s
interpret panicked s r = back_off (record_transient_failure s r.started_at r.checked_at) r
interpret aborted s r = back_off (record_transient_failure s r.started_at r.checked_at) r

-- The worker is started, and counted, once the backoff has been looked at.
abbrev start : Supervisor → ℕ → Supervisor
start s now = record (maybe_reset_backoff s now) { restart_count = next_u32 s.restart_count }

unfoldable pub round : Supervisor → Round → Next
unfolding maybe_reset_backoff interpret
round s r =
    if r.shut_down_before
    then stops shut_down s
    else let s' = start s r.resumed_at in
      if r.shut_down_after then stops shut_down s' else interpret r.outcome s' r

-- The loop over a first round and those that follow it: the last of them, or the one that stops.
unfoldable pub run : Supervisor → Round → List Round → Next
run s r [] = round s r
run s r (r' ∷ rs) = elim (round s r) [
  | stops reason s' ↦ stops reason s'
  | restarts slept s' ↦ run s' r' rs
]
