-- ===== src/Resilience/Breaker.antt =====
-- crates/projections/src/resilience/circuit_breaker.rs. Durations and instants are nanoseconds; a
-- method takes the instant `now` and the random number `rnd` that it reads.
pub mod Interval
pub mod Invariant
use Prim.Native.String.{String}
use intuition_core.Base.{
  ℕ, ◌+◌, ◌-◌, ◌*◌, ◌/◌, ◌%◌, ◌^◌, min, Option, none, some, leb, ltb, if◌then◌else◌, List, [], ◌∷◌,
}

pub data CircuitState : Type 0 where
  closed opened half_open : CircuitState

pub record CircuitOpen : Type 0 where
  pub name : String
  pub opened_duration : ℕ
  pub next_probe_in : ℕ

pub record CircuitBreakerConfig : Type 0 where
  pub failure_threshold : ℕ
  pub initial_probe_interval : ℕ
  pub max_probe_interval : ℕ

pub record Inner : Type 0 where
  pub state : CircuitState
  pub consecutive_failures : ℕ
  pub probe_interval : ℕ
  pub opened_at : Option ℕ
  pub open_count : ℕ

-- The mutex makes each method one step on `inner`.
pub record CircuitBreaker : Type 0 where
  pub name : String
  pub config : CircuitBreakerConfig
  pub open config use *
  pub inner : Inner
  pub open inner use *

unfoldable pub default_config : CircuitBreakerConfig
default_config = record {
  failure_threshold = 5;
  initial_probe_interval = 5_000_000_000;
  max_probe_interval = 30_000_000_000;
}

unfoldable pub new : String → CircuitBreakerConfig → CircuitBreaker
new name config = record {
  name = name;
  config = config;
  inner = record {
    state = closed;
    consecutive_failures = 0;
    probe_interval = config.initial_probe_interval;
    opened_at = none;
    open_count = 0;
  };
}

unfoldable pub with_defaults : String → CircuitBreaker
unfolding new default_config
with_defaults name = new name default_config

abbrev pub u64_max : ℕ
u64_max = 2 ^ 64 - 1

abbrev pub u32_max : ℕ
u32_max = 2 ^ 32 - 1

-- The ceiling of the interval after `attempt` openings: `base * 2^attempt`, saturated and capped.
unfoldable pub cap_nanos : CircuitBreakerConfig → ℕ → ℕ
cap_nanos config attempt =
    let base_nanos = config.initial_probe_interval % 2 ^ 64 in
    let max_nanos = config.max_probe_interval % 2 ^ 64 in
    min (min (base_nanos * 2 ^ min attempt 62) u64_max) max_nanos

unfoldable pub next_probe_interval : CircuitBreakerConfig → ℕ → ℕ → ℕ
next_probe_interval config attempt rnd =
    let half = cap_nanos config attempt / 2 in half + (if ltb 0 half then rnd % half else 0)

-- What a call of `check` ends in; `panics` is the failed `expect`.
pub data Checked : Type 0 where
  passes panics : Checked
  rejects : CircuitOpen → Checked

check_open : CircuitBreaker → ℕ → Option ℕ → CircuitBreaker × Checked
check_open cb now none = (cb, panics)
check_open cb now (some opened_at) =
    let elapsed = now - opened_at in
    if leb cb.probe_interval elapsed
    then (record cb { inner = record (cb.inner) { state = half_open } }, passes)
    else (
      cb,
      rejects (record {
        name = cb.name;
        opened_duration = elapsed;
        next_probe_in = cb.probe_interval - elapsed;
      }),
    )

check_in : CircuitState → CircuitBreaker → ℕ → CircuitBreaker × Checked
unfolding check_open
check_in closed cb now = (cb, passes)
check_in half_open cb now = (cb, passes)
check_in opened cb now = check_open cb now cb.opened_at

unfoldable pub check : CircuitBreaker → ℕ → CircuitBreaker × Checked
unfolding check_in
check cb now = check_in cb.state cb now

close_probe : CircuitState → CircuitBreaker → Inner
close_probe half_open cb = record (cb.inner) {
  state = closed;
  probe_interval = cb.initial_probe_interval;
  open_count = 0;
  opened_at = none;
}
close_probe _ cb = cb.inner

unfoldable pub record_success : CircuitBreaker → CircuitBreaker
unfolding close_probe
record_success cb =
    let inner = close_probe cb.state cb in
    record cb { inner = record inner { consecutive_failures = 0 } }

-- The increment of the failure counter wraps, as the release build compiles it.
abbrev count_failure : Inner → Inner
count_failure i = record i { consecutive_failures = (i.consecutive_failures + 1) % 2 ^ 32 }

abbrev reopen : CircuitBreakerConfig → Inner → ℕ → Inner
reopen config i rnd =
    let open_count = min (i.open_count + 1) u32_max in
    record i {
      open_count = open_count;
      probe_interval = next_probe_interval config open_count rnd;
      state = opened;
    }

fail_in : CircuitState → CircuitBreakerConfig → Inner → ℕ → ℕ → Inner
fail_in closed config i now rnd =
    if leb config.failure_threshold i.consecutive_failures
    then record (reopen config i rnd) { opened_at = some now }
    else i
fail_in half_open config i now rnd = reopen config i rnd
fail_in opened config i now rnd = i

unfoldable pub record_failure : CircuitBreaker → ℕ → ℕ → CircuitBreaker
unfolding fail_in
record_failure cb now rnd = record cb {
  inner = fail_in cb.state cb.config (count_failure cb.inner) now rnd;
}

-- The calls that share a breaker, in the order in which they take the mutex.
pub data Call : Type 0 where
  checks : ℕ → Call
  succeeds : Call
  fails : ℕ → ℕ → Call

pub step : CircuitBreaker → Call → CircuitBreaker
step cb (checks now) = (check cb now).0
step cb succeeds = record_success cb
step cb (fails now rnd) = record_failure cb now rnd

pub run : CircuitBreaker → List Call → CircuitBreaker
run cb [] = cb
run cb (c ∷ cs) = run (step cb c) cs
