-- ===== src/Resilience/Breaker/Invariant.antt =====
-- The state machine of crates/projections/src/resilience/circuit_breaker.rs: what holds of a breaker
-- between two calls, and when it trips.
use Prim.Native.String.{String}
use intuition_core.Base.{
  ℕ, ◌+◌, ◌-◌, ◌≤◌, ◌<◌, ◌≡◌, ◌≢◌, min, Bool, true, false, Option, none, some, List, [], ◌∷◌,
  length, refl, arith, leb, leb→le, not-leb→lt, inl, inr, Bool-cases,
}
use intuition_core.Resilience.Breaker.{
  CircuitBreakerConfig, CircuitOpen, CircuitBreaker, closed, opened, half_open, passes, rejects,
  panics, u32_max, Call, checks, succeeds, fails, new, check, record_success, record_failure, step,
  run,
}
use intuition_core.Resilience.Breaker.Interval.{next_probe_interval_bounds}

abbrev is_some {ℓ} : {A : Type ℓ} → Option A → Bool
is_some none = false
is_some (some _) = true

-- A threshold that a `u32` counter can reach.
pub record IsUsable (c : CircuitBreakerConfig) : Type 0 where
  pub positive : 0 < c.failure_threshold
  pub reachable : c.failure_threshold ≤ u32_max

pub record IsValid (cb : CircuitBreaker) : Type 0 where
  pub usable : IsUsable cb.config
  pub timed : cb.state ≢ closed → is_some cb.opened_at ≡ true
  pub bounded : cb.state ≢ closed → cb.probe_interval ≤ cb.max_probe_interval
  pub untripped : cb.state ≡ closed → cb.consecutive_failures < cb.failure_threshold
  pub fresh_interval : cb.state ≡ closed → cb.probe_interval ≡ cb.initial_probe_interval
  pub fresh_count : cb.state ≡ closed → cb.open_count ≡ 0
  pub fresh_time : cb.state ≡ closed → cb.opened_at ≡ none

new-IsValid : (name : String) (c : CircuitBreakerConfig) → IsUsable c → IsValid (new name c)
unfolding new
new-IsValid name c u = ground arith

-- A valid breaker with a given configuration, which no call changes.
pub record Serves (c : CircuitBreakerConfig) (cb : CircuitBreaker) : Type 0 where
  pub valid : IsValid cb
  pub configured : cb.config ≡ c

pub check-Serves :
    (c : CircuitBreakerConfig) (cb : CircuitBreaker) (now : ℕ)
    → Serves c cb
    → Serves c (check cb now).0
unfolding check
check-Serves c cb now v = ground arith

pub record_success-Serves :
    (c : CircuitBreakerConfig) (cb : CircuitBreaker) → Serves c cb → Serves c (record_success cb)
unfolding record_success
record_success-Serves c cb v = ground arith

pub record_failure-Serves :
    (c : CircuitBreakerConfig) (cb : CircuitBreaker) (now rnd : ℕ)
    → Serves c cb
    → Serves c (record_failure cb now rnd)
unfolding record_failure
record_failure-Serves c cb now rnd v =
    ground (arith, next_probe_interval_bounds cb.config (min (cb.open_count + 1) u32_max) rnd)

step-IsValid : (cb : CircuitBreaker) (c : Call) → IsValid cb → IsValid (step cb c)
unfolding step
step-IsValid cb (checks now) v =
    (check-Serves cb.config cb now (record { valid = v; configured = refl })).valid
step-IsValid cb succeeds v =
    (record_success-Serves cb.config cb (record { valid = v; configured = refl })).valid
step-IsValid cb (fails now rnd) v =
    (record_failure-Serves cb.config cb now rnd (record { valid = v; configured = refl })).valid

run-IsValid : (cb : CircuitBreaker) (cs : List Call) → IsValid cb → IsValid (run cb cs)
unfolding run
run-IsValid cb [] v = v
run-IsValid cb (c ∷ cs) v = run-IsValid (step cb c) cs (step-IsValid cb c v)

pub check-ne-panics : (cb : CircuitBreaker) (now : ℕ) → IsValid cb → (check cb now).1 ≢ panics
unfolding check
check-ne-panics cb now v = ground arith

-- A rejected caller is told to wait at most the longest interval.
pub check-rejects_wait :
    (cb : CircuitBreaker) (now : ℕ) {o : CircuitOpen}
    → IsValid cb
    → (check cb now).1 ≡ rejects o
    → o.next_probe_in ≤ cb.max_probe_interval
unfolding check
check-rejects_wait cb now v h = ground arith

-- Whatever calls have shared a new breaker with a usable threshold, in whatever order and at whatever
-- times: while closed it counts fewer failures than the threshold and has the initial interval; else
-- it knows when it opened and waits at most the longest interval. So `check` never hits its `expect`.
pub run-new-IsValid :
    (name : String) (c : CircuitBreakerConfig) (cs : List Call) (now : ℕ)
    → IsUsable c
    → IsValid (run (new name c) cs) × ((check (run (new name c) cs) now).1 ≢ panics)
run-new-IsValid name c cs now u =
    let v = run-IsValid (new name c) cs (new-IsValid name c u) in
    (v, check-ne-panics (run (new name c) cs) now v)

-- Failures in a row, each at a time and with a random number.
abbrev pub failures : List (ℕ × ℕ) → List Call
failures [] = []
failures ((now, rnd) ∷ fs) = fails now rnd ∷ failures fs

run-failures_opened :
    (cb : CircuitBreaker) (fs : List (ℕ × ℕ))
    → cb.state ≡ opened
    → (run cb (failures fs)).state ≡ opened
unfolding run step record_failure
run-failures_opened cb [] e = e
run-failures_opened cb ((now, rnd) ∷ fs) e =
    run-failures_opened (record_failure cb now rnd) fs (ground arith)

record_failure-trips :
    (cb : CircuitBreaker) (now rnd : ℕ)
    → IsValid cb
    → cb.state ≡ closed
    → cb.failure_threshold ≤ cb.consecutive_failures + 1
    → (record_failure cb now rnd).state ≡ opened
unfolding record_failure
record_failure-trips cb now rnd v e h = ground arith

record_failure-counts :
    (cb : CircuitBreaker) (now rnd : ℕ)
    → IsValid cb
    → cb.state ≡ closed
    → cb.consecutive_failures + 1 < cb.failure_threshold
    → let next = record_failure cb now rnd in
      (next.state ≡ closed)
      × (next.consecutive_failures ≡ cb.consecutive_failures + 1)
      × (next.failure_threshold ≡ cb.failure_threshold)
unfolding record_failure
record_failure-counts cb now rnd v e h = ground arith

run-failures_closed :
    (cb : CircuitBreaker) (fs : List (ℕ × ℕ))
    → IsValid cb
    → cb.state ≡ closed
    → ((cb.consecutive_failures + length fs < cb.failure_threshold
          → (run cb (failures fs)).state ≡ closed)
        × (cb.failure_threshold ≤ cb.consecutive_failures + length fs
            → (run cb (failures fs)).state ≡ opened))
unfolding run step
run-failures_closed cb [] v e = (λ _. e, λ h. absurd (omega (arith, v.untripped e)))
run-failures_closed cb ((now, rnd) ∷ fs) v e =
    let next = record_failure cb now rnd in
    elim (Bool-cases (leb cb.failure_threshold (cb.consecutive_failures + 1))) [
      | inl trips ↦
          let over = leb→le _ _ trips in
          (
            λ h. absurd (omega arith),
            λ _. run-failures_opened next fs (record_failure-trips cb now rnd v e over),
          )
      | inr stays ↦
          let (state, counted, same) =
            record_failure-counts cb now rnd v e (not-leb→lt _ _ stays) in
          let (below, reached) =
            run-failures_closed next fs (step-IsValid cb (fails now rnd) v) state in
          (λ h. below (omega (arith, counted, same)), λ h. reached (omega (arith, counted, same)))
    ]

-- A new breaker that sees failures only stays closed as long as they are fewer than the threshold, and
-- is open from the threshold on.
pub run-failures :
    (name : String) (c : CircuitBreakerConfig) (fs : List (ℕ × ℕ))
    → IsUsable c
    → (length fs < c.failure_threshold → (run (new name c) (failures fs)).state ≡ closed)
      × (c.failure_threshold ≤ length fs → (run (new name c) (failures fs)).state ≡ opened)
unfolding new
run-failures name c fs u =
    let (below, reached) = run-failures_closed (new name c) fs (new-IsValid name c u) refl in
    (λ h. below (omega arith), λ h. reached (omega arith))

-- On an open breaker, a check before the probe interval is over is rejected with the time that is left
-- and changes nothing; a check from then on passes and starts the probe.
pub check_opened :
    (cb : CircuitBreaker) (opened_at now : ℕ)
    → cb.state ≡ opened
    → cb.opened_at ≡ some opened_at
    → opened_at ≤ now
    → (now < opened_at + cb.probe_interval
        → check cb now ≡ (
          cb,
          rejects (record {
            name = cb.name;
            opened_duration = now - opened_at;
            next_probe_in = opened_at + cb.probe_interval - now;
          }),
        ))
      × (opened_at + cb.probe_interval ≤ now
          → ((check cb now).1 ≡ passes) × ((check cb now).0.state ≡ half_open))
unfolding check
check_opened cb opened_at now e since after = ground arith
