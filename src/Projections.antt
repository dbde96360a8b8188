-- ===== src/Projections.antt =====
-- The projections of crates/projections/src: what they write into the two databases.
pub mod Tables
pub mod KgTables
pub mod Batch
pub mod VaultState
pub mod Holders
pub mod EntityTables
pub mod EntityPlan
pub mod CoreEntities
