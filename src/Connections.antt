-- ===== src/Connections.antt =====
-- Who may use what: crates/projections/src/shard.rs (which shard owns an event) and the reconnecting
-- SurrealDB handle of crates/projections/src/resilience/connection_manager.rs.
pub mod Pool
pub mod Shard
pub mod Surreal
