-- ===== src/Errors.antt =====
-- crates/projections/src/error.rs: the projection errors and their classes.
-- `X` is the type of the errors of the libraries (sqlx, surrealdb, serde_json).
use Prim.Native.String.{String}

pub data ErrorClass : Type 0 where
  fatal transient circuit_protected : ErrorClass

pub data ProjectionError (X : Type 0) : Type 0 where
  database surreal serialization : X → ProjectionError X
  invalid_event_data missing_field config sink : String → ProjectionError X
  unique_constraint_violation circuit_open : String → ProjectionError X

unfoldable pub classify : {X : Type 0} → ProjectionError X → ErrorClass
classify (database _) = transient
classify (surreal _) = transient
classify (sink _) = transient
classify (circuit_open _) = circuit_protected
classify (invalid_event_data _) = fatal
classify (missing_field _) = fatal
classify (serialization _) = fatal
classify (config _) = fatal
classify (unique_constraint_violation _) = fatal
