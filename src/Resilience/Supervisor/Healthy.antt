-- ===== src/Resilience/Supervisor/Healthy.antt =====
-- The reset of the backoff after a healthy run in crates/projections/src/resilience/supervisor.rs. The
-- window is measured from the start of the healthy run, and so misses the longest runs.
use intuition_core.Base.{ℕ, ◌+◌, ◌*◌, ◌≤◌, ◌<◌, ◌≡◌, none, arith}
use intuition_core.Resilience.Supervisor.{Supervisor, maybe_reset_backoff, record_transient_failure}

-- A worker that failed after a healthy run has its backoff reset at the restart if less than twice the
-- healthy period has gone by since the run started, and never else: a run of twice the period or longer
-- leaves the escalated delay and the count of failures as they were.
pub maybe_reset-record_transient :
    (s : Supervisor) (started ended resumed : ℕ)
    → started + s.healthy_reset_after ≤ ended
    → ended ≤ resumed
    → let failed = record_transient_failure s started ended in
      (resumed < started + s.healthy_reset_after * 2
        → maybe_reset_backoff failed resumed ≡ record s {
          current_backoff = s.min_backoff;
          consecutive_failures = 0;
          last_healthy_at = none;
        })
      × (started + s.healthy_reset_after * 2 ≤ resumed
          → maybe_reset_backoff failed resumed ≡ failed)
unfolding maybe_reset_backoff record_transient_failure
maybe_reset-record_transient s started ended resumed healthy order = ground arith
