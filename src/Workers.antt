-- ===== src/Workers.antt =====
-- crates/projections/src/worker, event/reader.rs and resilience/checkpoint.rs: the event-driven workers
-- over the event store and the checkpoint table.
pub mod Store
pub mod Sink
pub mod Cycle
pub mod TypedReader
pub mod Pg
pub mod Surreal
pub mod CoreEntities
pub mod EntityLoop
