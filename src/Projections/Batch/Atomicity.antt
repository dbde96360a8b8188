-- ===== src/Projections/Batch/Atomicity.antt =====
-- What the commits of crates/projections/src/projection/dual leave behind.
use Prim.Native.String.{String}
use intuition_core.Base.{◌≡◌, refl, [], Option, none, some, List, Result, ok, err, ◌>>◌}
use intuition_core.Errors.{
  ErrorClass, fatal, transient, circuit_protected, ProjectionError, classify,
}
use intuition_core.Events.{Serde}
use intuition_core.Events.Parsing.{ParsedEvent}
use intuition_core.Projections.Batch.{
  Databases, Writes, Faults, Handled, Loop, Outcome, raise, begins_kg, commits_kg, refreshes,
  each_event, rolled_back, finishes, commit_legacy, commit_kg, refreshed, begun, process_batch,
}

abbrev pub start : {J : Serde} → Databases J → Writes J.Time
start dbs = record { legacy = dbs.legacy; kg = dbs.kg; touched = [] }

raise-eq-err :
    {X : Type 0} (o : Option (ProjectionError X)) (e : ProjectionError X)
    → raise o ≡ err e
    → o ≡ some e
raise-eq-err none e h = cc
raise-eq-err (some d) e h = cc

module _ {J : Serde} {X : Type 0} where
  -- What a batch leaves: nothing in either database, with the error returned; or all that the loop and
  -- the refreshes wrote, in both; or, where the second commit failed, all of it in `kg` and nothing in
  -- the legacy database, with the error returned.
  pub data Leaves (faults : Faults X) (dbs : Databases J) (loop : Loop J X (Writes J.Time))
      (refresh : Writes J.Time → Writes J.Time) (after : Outcome J X) : Type 0 where
    nothing :
        (e : ProjectionError X)
        → after.0.legacy ≡ dbs.legacy
        → after.0.kg ≡ dbs.kg
        → after.1 ≡ err e
        → Leaves faults dbs loop refresh after
    everything :
        (w : Writes J.Time)
        → loop ≡ ok w
        → after ≡ (record dbs { legacy = (refresh w).legacy; kg = (refresh w).kg }, ok tt)
        → Leaves faults dbs loop refresh after
    only_kg :
        (w : Writes J.Time) (e : ProjectionError X)
        → loop ≡ ok w
        → faults.commit_legacy ≡ some e
        → after ≡ (record dbs { kg = (refresh w).kg }, err e)
        → Leaves faults dbs loop refresh after

  module _ (faults : Faults X) (dbs : Databases J) (refresh : Writes J.Time → Writes J.Time)
      (loop : Loop J X (Writes J.Time)) (w : Writes J.Time) (went : loop ≡ ok w) where
    commit_legacy-Leaves :
        (r : Result (ProjectionError X) (Unit {0}))
        → raise faults.commit_legacy ≡ r
        → Leaves faults dbs loop refresh
            (commit_legacy (record dbs { kg = (refresh w).kg }) (refresh w) r)
    unfolding commit_legacy
    commit_legacy-Leaves (err e) h = only_kg w e went (raise-eq-err faults.commit_legacy e h) refl
    commit_legacy-Leaves (ok _) h = everything w went refl

    commit_kg-Leaves :
        (r : Result (ProjectionError X) (Unit {0}))
        → Leaves faults dbs loop refresh (commit_kg faults dbs (refresh w) r)
    unfolding commit_kg
    commit_kg-Leaves (err e) = nothing e refl refl refl
    commit_kg-Leaves (ok _) = commit_legacy-Leaves (raise faults.commit_legacy) refl

    refreshed-Leaves :
        (r : Result (ProjectionError X) (Unit {0}))
        → Leaves faults dbs loop refresh (refreshed faults dbs (refresh w) r)
    unfolding refreshed
    refreshed-Leaves (err e) = nothing e refl refl refl
    refreshed-Leaves (ok _) = commit_kg-Leaves (commits_kg faults (refresh w).kg)

  rolled_back-keeps :
      (name : String) (faults : Faults X) (dbs : Databases J) (event : ParsedEvent J)
      (e : ProjectionError X) (class : ErrorClass)
      → ((rolled_back name faults dbs event e class).legacy ≡ dbs.legacy)
        × ((rolled_back name faults dbs event e class).kg ≡ dbs.kg)
  unfolding rolled_back
  rolled_back-keeps name faults dbs event e fatal = (refl, refl)
  rolled_back-keeps name faults dbs event e transient = (refl, refl)
  rolled_back-keeps name faults dbs event e circuit_protected = (refl, refl)

  finishes-Leaves :
      (name : String) (faults : Faults X) (dbs : Databases J)
      (refresh : Writes J.Time → Writes J.Time) (loop : Loop J X (Writes J.Time))
      → Leaves faults dbs loop refresh (finishes name faults dbs refresh loop)
  unfolding finishes
  finishes-Leaves name faults dbs refresh (err (event, e)) =
      let (l, k) = rolled_back-keeps name faults dbs event e (classify e) in nothing e l k refl
  finishes-Leaves name faults dbs refresh (ok w) =
      refreshed-Leaves faults dbs refresh (ok w) w refl (refreshes faults w.touched)

  module _ (name : String) (faults : Faults X) (dbs : Databases J)
      (handle : Writes J.Time → ParsedEvent J → Handled X (Writes J.Time))
      (refresh : Writes J.Time → Writes J.Time) (events : List (ParsedEvent J)) where
    begun-Leaves :
        (r : Result (ProjectionError X) (Unit {0}))
        → Leaves faults dbs
            (each_event handle (start dbs) events)
            refresh
            (begun name faults dbs handle refresh events r)
    unfolding begun
    begun-Leaves (err e) = nothing e refl refl refl
    begun-Leaves (ok _) =
        finishes-Leaves name faults dbs refresh (each_event handle (start dbs) events)

    pub process_batch-Leaves :
        Leaves faults dbs
          (each_event handle (start dbs) events)
          refresh
          (process_batch name faults dbs handle refresh events)
    unfolding process_batch
    process_batch-Leaves = begun-Leaves (raise faults.begin_legacy >> begins_kg faults dbs.kg)
