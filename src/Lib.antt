-- ===== src/Lib.antt =====
-- Verification of the Rust crates of intuition-core: the bonding curves with their fees, the events
-- of the shared crate, and the resilience layer and event workers of the projections.
--
-- The indexer writes blockchain events to an event store. A worker per projection reads them in
-- batches after its checkpoint, parses them, hands them to the projection through a retry loop, and
-- saves the checkpoint. The retry loop asks a circuit breaker before each attempt; a watchdog
-- inspects the workers' heartbeats; a supervisor restarts a worker that ends. The curves quote
-- what a deposit or a redemption in a vault is worth.
--
-- Curves (crates/curves/src):
--   Curves/Math        errors.rs, types.rs, math.rs: the checked operations on 256-bit words, as
--                      numbers with the bound tested. BigUint::sqrt is the record FloorSqrt.
--   Curves/Trait       traits.rs: the trait Curve as a record of functions.
--   Curves/Linear      linear.rs; RoundTrip: its quotes against one another.
--   Curves/Progressive offset_progressive.rs, `new` included; Quotes inverts the quotes, RoundTrip
--                      sets them against one another, Domain says where redeeming succeeds.
--   Curves/Fees        fees.rs over any Curve; Conservation, Variants, Trades.
--   Curves/Rounding    lemmas on the rounded quotients.
-- Errors               crates/projections/src/error.rs.
-- Resilience (crates/projections/src/resilience):
--   Breaker            circuit_breaker.rs: each method is one step under the mutex, with the clock
--                      and the random number as arguments; `run` is any sequence of calls.
--   Retry              retry.rs: the loop over the attempts that are left, so that its recursion
--                      needs no fuel; what it does is a list of effects. Rule is the induction
--                      rule that Totality and Sleeps use.
--   Supervisor         supervisor.rs and supervised_adapters.rs: one round of the loop of
--                      Supervisor::run is `round`, and `run` goes over a list of rounds.
--   Watchdog           watchdog.rs: the body of the loop of Watchdog::run is `tick`.
-- Events (crates/shared/src):
--   Events             types.rs and models.rs; Parsing is parsed_event.rs; Envelope what parsing keeps.
--                      The variants of ParsedEvent that hold a record are one constructor over the
--                      kind of the event. serde_json, BigDecimal and DateTime are the record Serde.
-- Workers (crates/projections/src):
--   Workers/Store      event/reader.rs and resilience/checkpoint.rs: the SQL statements over lists
--                      of rows; the event store is kept in the order of its sequence numbers.
--   Workers/Sink       sink/mod.rs and repo/dead_letter_repo.rs.
--   Workers/Cycle      what the two poll loops share.
--   Workers/Pg         worker/pg.rs: `cycle` is one pass through the loop of PgWorker::run, `run` any
--                      number of passes; Invariant and Delivery are about the events, Uptime
--                      about crashes.
--   Workers/Surreal    worker/surreal.rs, in the same way, with the dead-letter table.
--   Workers/TypedReader event/typed_reader.rs: the query over one table for each kind of event, whose
--                      rows are in any order; Ordered has the sorting, Union the comparison with
--                      Workers/Store.
--   Workers/CoreEntities worker/core_entities.rs: its retry loop, with two breakers, over
--                      Projections/CoreEntities; Settling says how it ends. EntityLoop is the poll loop
--                      around it, in the way of Workers/Pg; Recorded has what it keeps.
-- Projections (crates/projections/src):
--   Projections/Tables repo/vault_repo.rs, and the market events of repo/kg_market_repo.rs: a statement
--                      is a function on the rows by their key. KgTables has the statements of
--                      kg_market_repo.rs that are those of vault_repo.rs on other tables.
--   Projections/Batch  the frame of process_parsed_batch that the two projections share: two
--                      transactions, the loop over the events, the commits (kg first). Which of the
--                      calls of the databases fail is an argument, the record Faults. Atomicity,
--                      HalfDone and Keeps say what a batch leaves.
--   Projections/VaultState projection/dual/vault_state.rs, and compute_market_cap of projection/mod.rs;
--                      Ledger is the account of a vault, Entries what the loop enters in it,
--                      Totals the result for a batch.
--   Projections/Holders projection/dual/vault_holders_index.rs; Positive and Counted.
--   Projections/EntityTables, EntityPlan, CoreEntities projection/dual/core_entities.rs: its statements, its
--                      planner (with build_raw_triple_ops of projection/surreal/triple.rs), and the
--                      three steps on SurrealDB, `term` and `kg`. What a database does in a call is the
--                      record Attempt, SurrealDB the record ProjectionSink. Settled, SettledKg,
--                      Written and Unsunk are the lemmas of Replay, Unsunk that PostgreSQL's side does
--                      not depend on the sink (NoopSink of sink/mod.rs); Stages and Fallback (with
--                      Alike) stand on their own.
-- Connections (crates/projections/src):
--   Connections/Shard  shard.rs, for any hash of a vault's identifiers.
--   Connections/Surreal ReconnectingSurreal of resilience/connection_manager.rs: its methods cut at
--                      the points where another task may run; Races has what the locks exclude.
--   Connections/Pool   PoolPartitioner of resilience/connection_manager.rs, and its set-up in main.rs:
--                      a poll of `acquire` and the drop of a permit are the steps, tokio's semaphore a
--                      parameter; Permits has how many permits are held (Budgets and Slots: its lemmas).
-- Tests                the theorems applied at concrete inputs.
--
-- Numbers: u32, u64, i64 and U256 are natural numbers; where the code wraps or checks, the model
-- does at the width. Sequence and block numbers are not negative. Durations are nanoseconds where
-- the names do not say otherwise.
--
-- Not modelled: the batch worker; the projections besides the three of
-- Projections, with their repositories, and the sinks, which build statements for external
-- databases; metrics and logs; the wiring of the tasks in coordinator.rs; the rindexer ingestion;
-- the TypeScript services.
pub mod Base
pub mod Curves
pub mod Errors
pub mod Events
pub mod Resilience
pub mod Projections
pub mod Workers
pub mod Connections
pub mod Tests
