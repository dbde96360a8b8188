-- ===== src/Workers/CoreEntities/Settling.antt =====
-- How a call of the retry loop of crates/projections/src/worker/core_entities.rs ends.
use Prim.Native.String.{String}
use intuition_core.Base.{ℕ, ◌≤◌, ◌≡◌, List, Result, ok, Eq}
use intuition_core.Errors.{ProjectionError}
use intuition_core.Events.{Serde}
use intuition_core.Events.Parsing.{ParsedEvent}
use intuition_core.Resilience.Breaker.{CircuitBreakerConfig}
use intuition_core.Resilience.Breaker.Invariant.{Serves}
use intuition_core.Resilience.Retry.{returns}
use intuition_core.Resilience.Retry.Totality.{calls}
use intuition_core.Projections.EntityTables.{Codecs}
use intuition_core.Projections.CoreEntities.{ProjectionSink, Stores, process_parsed_batch}
use intuition_core.Projections.CoreEntities.Written.{calm}
use intuition_core.Projections.CoreEntities.Unsunk.{unsunk}
use intuition_core.Projections.CoreEntities.Kept.{Keeps}
use intuition_core.Workers.CoreEntities.{Machine, Run}

module _ {J : Serde} {S : ProjectionSink J} ⦃t : Eq J.Time⦄ (C : Codecs J) (X : Type 0)
    (events : List (ParsedEvent J)) (c d : CircuitBreakerConfig) (start : Stores J S) where
  -- What PostgreSQL holds can still be completed, as at the start, and `term` has lost no row; the breakers
  -- are valid and have the configurations that they had.
  pub record IsReady (m : Machine J S) : Type 0 where
    pub heals :
        process_parsed_batch C (calm {X = X}) (unsunk m.stores) events
        ≡ process_parsed_batch C calm (unsunk start) events
    pub keeps : Keeps start m.stores
    pub surreal_serves : Serves c m.surreal_cb
    pub pg_serves : Serves d m.pg_cb

  -- PostgreSQL holds what a batch in which nothing fails makes of the start, and all stores hold what such
  -- a batch makes of what the attempts before the last have left.
  pub record Writes (stores : Stores J S) : Type 0 where
    pub entire :
        process_parsed_batch C (calm {X = X}) (unsunk start) events ≡ (unsunk stores, ok tt)
    pub last :
        (before : Stores J S) × (process_parsed_batch C (calm {X = X}) before events
          ≡ (stores, ok tt))

  -- The loop has returned a result, behind no more calls of the projection than attempts were left; and
  -- if the result is no error, the batch is written everywhere.
  pub record IsSettled (left : ℕ) (r : Run J S X) : Type 0 where
    pub returned : (result : Result (ProjectionError X) (Unit {0})) × (r.ending ≡ returns result)
    pub written : r.ending ≡ returns (ok tt) → Writes r.machine.stores
    pub ready : IsReady r.machine
    pub few : calls r.effects ≤ left
