-- ===== src/Tests/Resilience/Watchdog.antt =====
-- A worker that beats at 5 s and then stops.
use intuition_core.Base.{◌+◌, ◌≡◌, refl, arith, true, false, some, none, [], ◌∷◌, ◌++◌}
use intuition_core.Resilience.Watchdog.{WatchedWorker, beats, ticks, watch, new_heartbeat}
use intuition_core.Resilience.Watchdog.Stalls.{watch-new_timely, inspections, watch_stall_once}

abbrev worker : WatchedWorker
worker = record {
  name = "vault_state";
  heartbeat = record { last_beat_ms = some 5000; reference = 0 };
  cancelled = false;
  stalled = false;
  stalls_detected = 0;
}

-- It has not beaten yet.
abbrev fresh : WatchedWorker
fresh = record {
  name = "vault_state";
  heartbeat = record { last_beat_ms = none; reference = 1000 };
  cancelled = false;
  stalled = false;
  stalls_detected = 0;
}

fresh_heartbeat : fresh.heartbeat ≡ new_heartbeat 1000
unfolding new_heartbeat
fresh_heartbeat = refl

watch-new_timely_example :
    (watch 120000000000 fresh (ticks 500000 ∷ beats 510000 ∷ ticks 520000 ∷ [])).cancelled ≡ false
watch-new_timely_example =
    watch-new_timely 120000000000 1000 fresh (ticks 500000 ∷ beats 510000 ∷ ticks 520000 ∷ [])
      fresh_heartbeat refl (omega arith, tt)

watch_stall_once_example :
    watch 120000000000 worker (inspections ((10000 ∷ 130000 ∷ []) ++ 140000 ∷ []))
    ≡ record worker { cancelled = true; stalled = true; stalls_detected = 0 + 1 }
watch_stall_once_example =
    watch_stall_once 120000000000 worker 5000 0 140000 (10000 ∷ 130000 ∷ []) refl refl
      (omega arith, (omega arith, omega arith)) (omega arith)
