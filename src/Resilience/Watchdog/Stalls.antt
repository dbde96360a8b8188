-- ===== src/Resilience/Watchdog/Stalls.antt =====
-- When the watchdog of crates/projections/src/resilience/watchdog.rs cancels a worker.
use native.Mathlib.Decide.{dec_lt}
use intuition_core.Base.{
  ap, ◌++◌, ℕ, ◌+◌, ◌-◌, ◌*◌, ◌≤◌, ◌<◌, ◌≡◌, refl, true, false, Option, none, some, List, [], ◌∷◌,
  arith,
}
use intuition_core.Resilience.Watchdog.{
  Heartbeat, WatchedWorker, Event, beats, ticks, inspect, observe, watch, new_heartbeat,
}

-- Every inspection comes at most the threshold after the last beat; before the first one (`none`) any
-- time will do. Beats are recorded as milliseconds since `reference`.
abbrev pub IsTimely : ℕ → ℕ → Option ℕ → List Event → Type 0
IsTimely threshold reference last [] = Unit {0}
IsTimely threshold reference last (beats now ∷ es) =
    IsTimely threshold reference (some (now - reference)) es
IsTimely threshold reference none (ticks now ∷ es) = IsTimely threshold reference none es
IsTimely threshold reference (some last) (ticks now ∷ es) =
    ((now - reference - last) * 1_000_000 ≤ threshold) × IsTimely threshold reference (some last) es

inspect-none :
    (threshold : ℕ) (w : WatchedWorker) (now : ℕ)
    → w.heartbeat.last_beat_ms ≡ none
    → inspect threshold w now ≡ w
unfolding inspect
inspect-none threshold w now e = ground arith

-- Whether the beat at `last` is too old at `now`.
abbrev pub IsLate : ℕ → WatchedWorker → ℕ → ℕ → Type 0
IsLate threshold w last now = threshold < (now - w.heartbeat.reference - last) * 1_000_000

inspect-timely :
    (threshold : ℕ) (w : WatchedWorker) (last now : ℕ)
    → w.heartbeat.last_beat_ms ≡ some last
    → (now - w.heartbeat.reference - last) * 1_000_000 ≤ threshold
    → inspect threshold w now ≡ record w { stalled = false }
unfolding inspect
inspect-timely threshold w last now e h = ground arith

inspect-calm :
    (threshold : ℕ) (w : WatchedWorker) (last now : ℕ)
    → w.heartbeat.last_beat_ms ≡ some last
    → (now - w.heartbeat.reference - last) * 1_000_000 ≤ threshold
    → w.stalled ≡ false
    → inspect threshold w now ≡ w
unfolding inspect
inspect-calm threshold w last now e h s = ground arith

inspect-late :
    (threshold : ℕ) (w : WatchedWorker) (last now : ℕ)
    → w.heartbeat.last_beat_ms ≡ some last
    → IsLate threshold w last now
    → w.stalled ≡ false
    → inspect threshold w now
      ≡ record w { cancelled = true; stalled = true; stalls_detected = w.stalls_detected + 1 }
unfolding inspect
inspect-late threshold w last now e h s = ground arith

inspect-known :
    (threshold : ℕ) (w : WatchedWorker) (last now : ℕ)
    → w.heartbeat.last_beat_ms ≡ some last
    → IsLate threshold w last now
    → w.stalled ≡ true
    → inspect threshold w now ≡ w
unfolding inspect
inspect-known threshold w last now e h s = ground arith

watch-timely :
    (threshold : ℕ) (w : WatchedWorker) (last : Option ℕ) (es : List Event)
    → w.heartbeat.last_beat_ms ≡ last
    → w.cancelled ≡ false
    → IsTimely threshold w.heartbeat.reference last es
    → (watch threshold w es).cancelled ≡ false
unfolding watch observe
watch-timely threshold w last [] l c t = c
watch-timely threshold w last (beats now ∷ es) l c t =
    watch-timely threshold (observe threshold w (beats now)) (some (now - w.heartbeat.reference)) es
      refl c t
watch-timely threshold w none (ticks now ∷ es) l c t =
    rw (inspect-none threshold w now l, watch) (watch-timely threshold w none es l c t)
watch-timely threshold w (some b) (ticks now ∷ es) l c t =
    rw (inspect-timely threshold w b now l t.0, watch)
      (watch-timely threshold (record w { stalled = false }) (some b) es l c t.1)

-- A worker that beats at least as often as the threshold asks, as seen at each inspection, is never
-- cancelled; one that has not beaten yet is not either, however long it takes.
pub watch-new_timely :
    (threshold started : ℕ) (w : WatchedWorker) (es : List Event)
    → w.heartbeat ≡ new_heartbeat started
    → w.cancelled ≡ false
    → IsTimely threshold started none es
    → (watch threshold w es).cancelled ≡ false
unfolding new_heartbeat
watch-new_timely threshold started w es new c t =
    watch-timely threshold w none es (ap (λ (h : Heartbeat). h.last_beat_ms) new) c (rw new t)

abbrev pub inspections : List ℕ → List Event
inspections [] = []
inspections (t ∷ ts) = ticks t ∷ inspections ts

-- The times do not fall, from `t` on up to `end`.
abbrev pub Rises : ℕ → List ℕ → ℕ → Type 0
Rises t [] end = t ≤ end
Rises t (u ∷ us) end = (t ≤ u) × Rises u us end

watch-known :
    (threshold : ℕ) (w : WatchedWorker) (last t end : ℕ) (ts : List ℕ)
    → w.heartbeat.last_beat_ms ≡ some last
    → w.stalled ≡ true
    → IsLate threshold w last t
    → Rises t ts end
    → watch threshold w (inspections (ts ++ end ∷ [])) ≡ w
unfolding watch observe
watch-known threshold w last t end [] e s late up =
    inspect-known threshold w last end e (omega arith) s
watch-known threshold w last t end (u ∷ us) e s late up =
    let still : IsLate threshold w last u = omega arith in
    rw (inspect-known threshold w last u e still s, watch)
      (watch-known threshold w last u end us e s still up.1)

-- A worker that stops beating is cancelled, and its stall counted, exactly once, however many
-- inspections the watchdog makes at rising times up to one that finds it late.
pub watch_stall_once :
    (threshold : ℕ) (w : WatchedWorker) (last start end : ℕ) (ts : List ℕ)
    → w.heartbeat.last_beat_ms ≡ some last
    → w.stalled ≡ false
    → Rises start ts end
    → IsLate threshold w last end
    → watch threshold w (inspections (ts ++ end ∷ []))
      ≡ record w { cancelled = true; stalled = true; stalls_detected = w.stalls_detected + 1 }
unfolding watch observe
watch_stall_once threshold w last start end [] e s up late =
    inspect-late threshold w last end e late s
watch_stall_once threshold w last start end (u ∷ us) e s up late =
    elim (dec_lt threshold ((u - w.heartbeat.reference - last) * 1_000_000)) [
      | yes found ↦
          rw (inspect-late threshold w last u e found s, watch)
            (watch-known threshold _ last u end us e refl found up.1)
      | no timely ↦
          rw (inspect-calm threshold w last u e (omega arith) s, watch)
            (watch_stall_once threshold w last u end us e s up.1 late)
    ]
