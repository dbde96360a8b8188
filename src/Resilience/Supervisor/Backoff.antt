-- ===== src/Resilience/Supervisor/Backoff.antt =====
-- The restart delays of crates/projections/src/resilience/supervisor.rs, and when it stops.
use Prim.Native.String.{String}
use native.Mathlib.Nat.{pow-suc, mod-lt, mul-le-mul_left}
use native.Mathlib.Decide.{dec_le}
use intuition_core.Base.{
  ℕ, zero, suc, ◌+◌, ◌-◌, ◌*◌, ◌/◌, ◌%◌, ◌^◌, ◌≤◌, ◌<◌, ◌≡◌, ◌⊎◌, refl, min, true, false, none,
  List, [], ◌∷◌, length, All, ap, ◌∙◌, arith, ok, err,
}
use intuition_core.Resilience.Supervisor.{
  Supervisor, Round, Outcome, returned, panicked, aborted, transient_failure, fatal_failure, new,
  maybe_reset_backoff, record_transient_failure, apply_jitter, Reason, shut_down, fatal_error, Next,
  stops, restarts, round, run, healthy_period,
}

-- The delay stays between the two limits.
pub record IsBounded (low high : ℕ) (s : Supervisor) : Type 0 where
  pub lowest : s.min_backoff ≡ low
  pub highest : s.max_backoff ≡ high
  pub ordered : low ≤ high
  pub least : low ≤ s.current_backoff
  pub most : s.current_backoff ≤ high

abbrev pub Holds {ℓ} : (Supervisor → Type ℓ) → Next → Type ℓ
Holds P (stops reason s) = P s
Holds P (restarts slept s) = P s

round-IsBounded :
    (low high : ℕ) (s : Supervisor) (r : Round)
    → IsBounded low high s
    → Holds (IsBounded low high) (round s r)
unfolding round maybe_reset_backoff record_transient_failure
round-IsBounded low high s r b = ground arith

-- The worker's task ended in a failure that is retried.
abbrev pub Fails : Outcome → Type 0
Fails (returned (ok _)) = ⊥
Fails (returned (err (transient_failure _))) = Unit
Fails (returned (err (fatal_failure _))) = ⊥
Fails panicked = Unit
Fails aborted = Unit

-- A round without a shutdown in which the worker fails sooner than a healthy run takes.
pub record FailsShortly (healthy_reset_after : ℕ) (r : Round) : Type 0 where
  pub goes_on : r.shut_down_before ≡ false
  pub stays_on : r.shut_down_after ≡ false
  pub sleeps_on : r.shut_down_asleep ≡ false
  pub fails : Fails r.outcome
  pub short : r.checked_at - r.started_at < healthy_reset_after

abbrev pub delayed : Supervisor → Supervisor
delayed s = record s {
  restart_count = (s.restart_count + 1) % 2 ^ 32;
  consecutive_failures = (s.consecutive_failures + 1) % 2 ^ 32;
  current_backoff = min (s.current_backoff * 2) s.max_backoff;
}

pub round-FailsShortly :
    (s : Supervisor) (r : Round)
    → s.last_healthy_at ≡ none
    → FailsShortly s.healthy_reset_after r
    → round s r ≡ restarts (apply_jitter s.current_backoff r.random) (delayed s)
unfolding round maybe_reset_backoff record_transient_failure
round-FailsShortly s r e f = ground arith

-- `min` by doubling: n failures after a delay of d.
abbrev pub doubled : ℕ → ℕ → ℕ → ℕ
doubled ceiling d n = min (d * 2 ^ n) ceiling

pow_pos : (n : ℕ) → 1 ≤ 2 ^ n
pow_pos zero = omega arith
pow_pos (suc n) = omega (arith, pow_pos n, pow-suc 2 n)

doubled-suc :
    (ceiling d n : ℕ) → doubled ceiling (min (d * 2) ceiling) n ≡ doubled ceiling d (suc n)
doubled-suc ceiling d n = elim (dec_le (d * 2) ceiling) [
  | yes fits ↦
      let same : min (d * 2) ceiling ≡ d * 2 = omega arith in
      rw same (omega (arith, ap (λ (t : ℕ). d * t) (pow-suc 2 n)))
  | no over ↦
      let same : min (d * 2) ceiling ≡ ceiling = omega arith in
      rw same (
        omega (
          arith,
          ap (λ (t : ℕ). d * t) (pow-suc 2 n),
          mul-le-mul_left ceiling (pow_pos n),
          mul-le-mul_left (d * 2) (pow_pos n),
        ))
]

-- The sleep is between a half and one and a half times the delay.
apply_jitter_bounds :
    (x random : ℕ)
    → 1 ≤ x
    → (min (1_000_000_000 * x) 30_000_000_000
        ≤ 2 * apply_jitter (min (1_000_000_000 * x) 30_000_000_000) random)
      × (2 * apply_jitter (min (1_000_000_000 * x) 30_000_000_000) random
          ≤ 3 * min (1_000_000_000 * x) 30_000_000_000)
unfolding apply_jitter
apply_jitter_bounds x random h =
    let base_ms = min (1_000_000_000 * x) 30_000_000_000 / 1_000_000 % 2 ^ 64 in
    ground (arith, mod-lt (random % 2 ^ 64) {m = base_ms + 1})

run-FailsShortly :
    (s : Supervisor) (r : Round) (rs : List Round)
    → s.last_healthy_at ≡ none
    → All (FailsShortly s.healthy_reset_after) (r ∷ rs)
    → s.current_backoff ≤ s.max_backoff
    → (slept : ℕ) × (s' : Supervisor) × (run s r rs ≡ restarts slept s')
      × (s'.current_backoff ≡ doubled s.max_backoff s.current_backoff (suc (length rs)))
      × ((random : ℕ) × (slept
            ≡ apply_jitter (doubled s.max_backoff s.current_backoff (length rs)) random))
unfolding run
run-FailsShortly s r [] e (f, _) le = (
  apply_jitter s.current_backoff r.random,
  delayed s,
  round-FailsShortly s r e f,
  omega (arith, pow-suc 2 0),
  (r.random, ap (λ (n : ℕ). apply_jitter n r.random) (omega arith)),
)
run-FailsShortly s r (r' ∷ rs) e (f, fs) le =
    let (slept, s', q, c, (random, j)) = run-FailsShortly (delayed s) r' rs e fs (omega arith) in
    (
      slept,
      s',
      rw (round-FailsShortly s r e f, run) q,
      c ∙ doubled-suc s.max_backoff s.current_backoff (suc (length rs)),
      (
        random,
        j
            ∙ ap (λ (n : ℕ). apply_jitter n random)
                (doubled-suc s.max_backoff s.current_backoff (length rs)),
      ),
    )

-- A new supervisor whose worker fails again and again, each time sooner than a healthy run takes, keeps
-- restarting it: after the n-th failure in a row it sleeps between a half and one and a half times
-- min(2^(n-1), 30) seconds, and its next delay is min(2^n, 30) seconds.
pub run-new-FailsShortly :
    (name : String) (r : Round) (rs : List Round)
    → All (FailsShortly healthy_period) (r ∷ rs)
    → (slept : ℕ) × (s : Supervisor) × (run (new name) r rs ≡ restarts slept s)
      × (s.current_backoff ≡ min (1_000_000_000 * 2 ^ length (r ∷ rs)) 30_000_000_000)
      × (min (1_000_000_000 * 2 ^ length rs) 30_000_000_000 ≤ 2 * slept)
      × (2 * slept ≤ 3 * min (1_000_000_000 * 2 ^ length rs) 30_000_000_000)
unfolding new
run-new-FailsShortly name r rs fs =
    let (slept, s, q, c, (random, j)) = run-FailsShortly (new name) r rs refl fs (omega arith) in
    let (low, high) = apply_jitter_bounds (2 ^ length rs) random (pow_pos (length rs)) in
    (slept, s, q, c, rw j low, rw j high)

run-IsBounded :
    (low high : ℕ) (s : Supervisor) (r : Round) (rs : List Round)
    → IsBounded low high s
    → Holds (IsBounded low high) (run s r rs)
unfolding run
run-IsBounded low high s r [] b = round-IsBounded low high s r b
run-IsBounded low high s r (r' ∷ rs) b =
    go (round s r) (round-IsBounded low high s r b) (λ t. run-IsBounded low high t r' rs)
  where
    go :
        (next : Next)
        → Holds (IsBounded low high) next
        → ((t : Supervisor) → IsBounded low high t → Holds (IsBounded low high) (run t r' rs))
        → Holds
            (IsBounded low high)
            (elim next [ stops reason s' ↦ stops reason s' | restarts slept s' ↦ run s' r' rs ])
    go (stops reason s') b' again = b'
    go (restarts slept s') b' again = again s' b'

-- Whatever a new supervisor's worker does, for however many rounds, the restart delay stays between 1
-- and 30 seconds.
pub run-new-IsBounded :
    (name : String) (r : Round) (rs : List Round)
    → Holds (IsBounded 1_000_000_000 30_000_000_000) (run (new name) r rs)
run-new-IsBounded name r rs =
    run-IsBounded 1_000_000_000 30_000_000_000 (new name) r rs (unfold new in omega arith)

-- Why a round ends the supervisor: the token was seen cancelled, or the worker failed fatally.
abbrev pub Explains : Round → Reason → Type 0
Explains r shut_down =
    (r.shut_down_before ≡ true)
    ⊎ (r.shut_down_after ≡ true)
    ⊎ (r.shut_down_late ≡ true)
    ⊎ (r.shut_down_asleep ≡ true)
Explains r fatal_error = (text : String) × (r.outcome ≡ returned (err (fatal_failure text)))

-- A round ends the supervisor only by a shutdown or by a fatal failure of the worker: after any other
-- end, a panic or an abort included, the worker is restarted.
pub round-stops :
    (s s' : Supervisor) (r : Round) (reason : Reason)
    → round s r ≡ stops reason s'
    → Explains r reason
unfolding round maybe_reset_backoff record_transient_failure
round-stops s s' r shut_down h = ground arith
round-stops s s' r fatal_error h = ground arith
