-- ===== src/Tests/Resilience/Supervisor.antt =====
-- A worker that fails after a second, and one that fails after six minutes.
use intuition_core.Base.{
  ℕ, ◌+◌, ◌*◌, ◌^◌, ◌≤◌, ◌<◌, ◌≡◌, refl, arith, false, none, min, [], ◌∷◌, length, err,
}
use intuition_core.Resilience.Supervisor.{
  Supervisor, Round, returned, transient_failure, fatal_failure, stops, restarts, fatal_error, new,
  round, run, maybe_reset_backoff, record_transient_failure, healthy_period,
}
use intuition_core.Resilience.Supervisor.Backoff.{FailsShortly, run-new-FailsShortly}
use intuition_core.Resilience.Supervisor.Healthy.{maybe_reset-record_transient}

abbrev failing : Round
failing = record {
  shut_down_before = false;
  resumed_at = 0;
  started_at = 10;
  outcome = returned (err (transient_failure "timeout"));
  shut_down_after = false;
  checked_at = 1000000010;
  shut_down_late = false;
  random = 300;
  shut_down_asleep = false;
}

fails_shortly : FailsShortly healthy_period failing
fails_shortly = record {
  goes_on = refl;
  stays_on = refl;
  sleeps_on = refl;
  fails = tt;
  short = omega arith;
}

abbrev broken : Round
broken = record failing { outcome = returned (err (fatal_failure "schema")) }

broken-stops : round (new "w") broken ≡ stops fatal_error (record (new "w") { restart_count = 1 })
unfolding round new
broken-stops = refl

run-new-FailsShortly_example :
    (slept : ℕ) × (s : Supervisor) × (run (new "w") failing (failing ∷ failing ∷ [])
      ≡ restarts slept s)
    × (s.current_backoff
        ≡ min (1000000000 * 2 ^ length (failing ∷ failing ∷ failing ∷ [])) 30000000000)
    × (min (1000000000 * 2 ^ length (failing ∷ failing ∷ [])) 30000000000 ≤ 2 * slept)
    × (2 * slept ≤ 3 * min (1000000000 * 2 ^ length (failing ∷ failing ∷ [])) 30000000000)
run-new-FailsShortly_example =
    run-new-FailsShortly "w" failing (failing ∷ failing ∷ [])
      (fails_shortly, (fails_shortly, (fails_shortly, tt)))

abbrev escalated : Supervisor
escalated = record {
  name = "w";
  restart_count = 4;
  consecutive_failures = 4;
  current_backoff = 16000000000;
  last_healthy_at = none;
  min_backoff = 1000000000;
  max_backoff = 30000000000;
  healthy_reset_after = 300000000000;
}

-- A run of twenty minutes.
maybe_reset-record_transient_example :
    (1216000000000 < 0 + 300000000000 * 2
      → maybe_reset_backoff (record_transient_failure escalated 0 1200000000000) 1216000000000
        ≡ record escalated {
          current_backoff = 1000000000;
          consecutive_failures = 0;
          last_healthy_at = none;
        })
    × (0 + 300000000000 * 2 ≤ 1216000000000
        → maybe_reset_backoff (record_transient_failure escalated 0 1200000000000) 1216000000000
          ≡ record_transient_failure escalated 0 1200000000000)
maybe_reset-record_transient_example =
    maybe_reset-record_transient escalated 0 1200000000000 1216000000000 (omega arith) (omega arith)
