-- ===== src/Tests.antt =====
-- Runs of the modelled code at concrete inputs, where the theorems' hypotheses hold.
pub mod Root
pub mod Curves
pub mod Resilience
pub mod Events
pub mod Workers
pub mod TypedReader
pub mod Connections
pub mod Projections
pub mod CoreEntities
