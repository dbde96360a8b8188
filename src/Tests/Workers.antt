-- ===== src/Tests/Workers.antt =====
-- Workers over a store of two events: checkpoints, a PostgreSQL projection and one into a sink.
use Prim.Native.String.{String}
use intuition_core.Base.{
  ℕ, ◌≤◌, ◌≡◌, ◌≢◌, ◌⊎◌, refl, arith, same_text_iff, true, false, some, none, List, [], ◌∷◌, ◌++◌,
  Result, err,
}
use intuition_core.Errors.{ProjectionError, sink, classify, fatal}
use intuition_core.Events.{deposited, Serde, StoredEvent}
use intuition_core.Workers.Store.{
  Checkpoint, get_checkpoint, save_checkpoint, checkpoint_key_of, read_batch_multi, is_wanted,
}
use intuition_core.Workers.Store.Checkpoints.{IsKeyed, save_checkpoint-get_checkpoint}
use intuition_core.Workers.Sink.{SinkOperation}
use intuition_core.Workers.Cycle.{Circumstances, arrivals, WorkerConfig}
use intuition_core.Workers.Pg as Pg
use intuition_core.Workers.Pg.Invariant as PgInvariant
use intuition_core.Workers.Pg.Delivery.{run-IsDelivered}
use intuition_core.Workers.Pg.Uptime.{AreCalm, run-AreCalm}
use intuition_core.Workers.Surreal as Surreal
use intuition_core.Workers.Surreal.Invariant as SurrealInvariant
use intuition_core.Workers.Surreal.Dropped.{cycle-drops}
use intuition_core.Tests.Events.{json, event}
use intuition_core.Resilience.Breaker.Invariant.{Serves}
use intuition_core.Tests.Resilience.Breaker as Breakers
use intuition_core.Tests.Resilience.Retry.{policy, show_open, attempts, breaker, serves}

abbrev show : ℕ → String
show n = "1"

abbrev row : Checkpoint
row = record {
  checkpoint_key = "fees:pg";
  projection_name = "fees";
  sink_name = "pg";
  last_sequence_number = some 4;
  last_block_number = none;
}

row-IsKeyed : IsKeyed "event_log" "pg" (row ∷ [])
unfolding checkpoint_key_of
row-IsKeyed = (
  (
    λ e. absurd (ground (arith, same_text_iff "fees:pg" "event_log:pg", e)),
    λ n. absurd (ground (arith, same_text_iff "fees" "event_log", n.0)),
  ),
  tt,
)

save_checkpoint-get_checkpoint_example :
    (get_checkpoint (save_checkpoint (row ∷ []) "event_log" "pg" 7 107) "event_log" "pg" ≡ 7)
    × ((q t : String)
        → (q ≢ "event_log") ⊎ (t ≢ "pg")
        → get_checkpoint (save_checkpoint (row ∷ []) "event_log" "pg" 7 107) q t
          ≡ get_checkpoint (row ∷ []) q t)
save_checkpoint-get_checkpoint_example =
    save_checkpoint-get_checkpoint "event_log" "pg" 7 107 (row ∷ []) row-IsKeyed

abbrev config : WorkerConfig
config = record { batch_size = 10; poll_interval_ms = 250 }

abbrev pg_worker : Pg.PgWorker
pg_worker = record {
  projection_name = "event_log";
  shard_id = none;
  event_types = deposited ∷ [];
  config = config;
  heartbeat = true;
  retry_policy = policy;
}

-- Two deposits arrive, and everything works.
abbrev pass : Circumstances json String
pass = record {
  arrived = event 7 "Deposited" 3 ∷ event 9 "Deposited" 0 ∷ [];
  checkpoint_unreadable = false;
  batch_unreadable = false;
  save_fails = false;
  attempts = attempts;
}

abbrev pg_world : Pg.World json
pg_world = record { event_store = []; checkpoints = []; circuit_breaker = breaker; processed = [] }

pg_start : PgInvariant.IsDelivered show pg_worker pg_world
unfolding Pg.checkpoint_name get_checkpoint
pg_start = record {
  keyed = tt;
  ascends = tt;
  reached = omega arith;
  delivered = λ e m wanted le. absurd m;
}

run-IsDelivered_example :
    (PgInvariant.checkpoint_of show pg_worker pg_world
      ≤ PgInvariant.checkpoint_of show pg_worker
          (Pg.run show_open show pg_worker pg_world (pass ∷ [])).0)
    × PgInvariant.IsDelivered show pg_worker
        (Pg.run show_open show pg_worker pg_world (pass ∷ [])).0
    × ((Pg.run show_open show pg_worker pg_world (pass ∷ [])).0.event_store
        ≡ [] ++ arrivals (pass ∷ []))
run-IsDelivered_example =
    run-IsDelivered show_open show pg_worker pg_world (pass ∷ []) (omega arith, (omega arith, tt))
      pg_start

-- A projection that fails with a transient error on every event.
abbrev surreal_worker : Surreal.Worker json String
surreal_worker = record {
  name = "price";
  event_types = deposited ∷ [];
  project_parsed = λ p. err (sink "unavailable");
  sink_name = "surrealdb";
  config = config;
  heartbeat = true;
  retry_policy = policy;
  dead_letter_pool = true;
}

abbrev surreal_world : Surreal.World json
surreal_world = record {
  event_store = [];
  checkpoints = [];
  circuit_breaker = breaker;
  applied = [];
  dead_letters = [];
}

-- Both events are there.
abbrev surreal_stocked : Surreal.World json
surreal_stocked = record surreal_world {
  event_store = event 7 "Deposited" 3 ∷ event 9 "Deposited" 0 ∷ [];
}

both_read :
    read_batch_multi surreal_stocked.event_store (deposited ∷ []) 0 10
    ≡ event 7 "Deposited" 3 ∷ event 9 "Deposited" 0 ∷ []
unfolding read_batch_multi is_wanted intuition_core.Events.as_str
both_read = refl

none_saved : SurrealInvariant.checkpoint_of surreal_worker surreal_stocked ≡ 0
unfolding get_checkpoint
none_saved = refl

soft :
    (e : ProjectionError String) × (◌≡◌
      {A = Result (ProjectionError String) (List (SinkOperation json))}
      (err (sink "unavailable"))
      (err e))
    × (classify e ≢ fatal)
unfolding classify
soft = (sink "unavailable", refl, λ q. cc)

cycle-drops_example :
    (SurrealInvariant.checkpoint_of surreal_worker
        (Surreal.cycle show_open (λ n. false) surreal_worker surreal_stocked pass).0
      ≡ 9)
    × ((Surreal.cycle show_open (λ n. false) surreal_worker surreal_stocked pass).0.applied ≡ [])
    × ((Surreal.cycle show_open (λ n. false) surreal_worker surreal_stocked pass).0.dead_letters
        ≡ [])
cycle-drops_example =
    cycle-drops show_open (λ n. false) surreal_worker surreal_stocked pass (event 9 "Deposited" 0)
      refl refl refl tt (rw (none_saved, both_read) refl)
      (rw (none_saved, both_read) (soft, (soft, tt)))

run-AreCalm_example :
    Serves Breakers.config
      (Pg.run show_open show pg_worker pg_world (pass ∷ pass ∷ [])).0.circuit_breaker
    × AreCalm (Pg.run show_open show pg_worker pg_world (pass ∷ pass ∷ [])).1
run-AreCalm_example =
    run-AreCalm show_open show pg_worker Breakers.config (omega arith) pg_world (pass ∷ pass ∷ [])
      serves
