-- ===== src/Curves.antt =====
-- crates/curves: the bonding-curve mathematics.
pub mod Math
pub mod Rounding
pub mod Trait
pub mod Linear
pub mod Progressive
pub mod Fees
