-- ===== src/Projections/Batch/HalfDone.antt =====
-- The failed second commit of crates/projections/src/projection/dual.
use Prim.Native.String.{String}
use intuition_core.Base.{◌≡◌, refl, [], ◌∷◌, Option, none, some, List, Result, ok, err, ◌>>◌}
use intuition_core.Errors.{ProjectionError}
use intuition_core.Events.{Serde}
use intuition_core.Events.Parsing.{ParsedEvent}
use intuition_core.Projections.Batch.{
  Kg, Databases, Writes, Faults, Handled, Loop, Outcome, raise, begins_kg, commits_kg, refreshes,
  each_event, finishes, commit_legacy, commit_kg, refreshed, begun, process_batch,
}
use intuition_core.Projections.Tables.{VaultKey}
use intuition_core.Projections.Batch.Atomicity.{start}

-- A batch that would succeed but for the second commit.
abbrev pub without_last : {X : Type 0} → Faults X → Faults X
without_last faults = record faults { commit_legacy = none }

abbrev pub with_last : {X : Type 0} → Faults X → ProjectionError X → Faults X
with_last faults problem = record faults { commit_legacy = some problem }

module _ {Time X : Type 0} (faults : Faults X) (problem : ProjectionError X) where
  same_commits :
      (kg : Option (Kg Time))
      → commits_kg (with_last faults problem) kg ≡ commits_kg (without_last faults) kg
  same_commits none = refl
  same_commits (some kg) = refl

  same_begins :
      (kg : Option (Kg Time))
      → begins_kg (with_last faults problem) kg ≡ begins_kg (without_last faults) kg
  same_begins none = refl
  same_begins (some kg) = refl

same_refreshes :
    {X : Type 0} (faults : Faults X) (problem : ProjectionError X) (keys : List VaultKey)
    → refreshes (with_last faults problem) keys ≡ refreshes (without_last faults) keys
same_refreshes faults problem [] = refl
same_refreshes faults problem (key ∷ keys) = refl

module _ {J : Serde} {X : Type 0} (faults : Faults X) (problem : ProjectionError X) where
  -- The outcomes of both.
  abbrev pub HalfDone :
      Databases J
      → Loop J X (Writes J.Time)
      → (Writes J.Time → Writes J.Time)
      → Outcome J X
      → Outcome J X
      → Type 0
  HalfDone dbs loop refresh good bad =
      (w : Writes J.Time) × (loop ≡ ok w)
      × (good.0 ≡ record dbs { legacy = (refresh w).legacy; kg = (refresh w).kg })
      × (bad ≡ (record dbs { kg = (refresh w).kg }, err problem))

  module _ (dbs : Databases J) (refresh : Writes J.Time → Writes J.Time) where
    commit_kg-HalfDone :
        (loop : Loop J X (Writes J.Time)) (w : Writes J.Time)
        (r : Result (ProjectionError X) (Unit {0}))
        → loop ≡ ok w
        → (commit_kg (without_last faults) dbs (refresh w) r).1 ≡ ok tt
        → HalfDone dbs loop refresh
            (commit_kg (without_last faults) dbs (refresh w) r)
            (commit_kg (with_last faults problem) dbs (refresh w) r)
    unfolding commit_kg commit_legacy
    commit_kg-HalfDone loop w (err e) l h = cc
    commit_kg-HalfDone loop w (ok _) l h = (w, l, refl, refl)

    refreshed-HalfDone :
        (loop : Loop J X (Writes J.Time)) (w : Writes J.Time)
        (r : Result (ProjectionError X) (Unit {0}))
        → loop ≡ ok w
        → (refreshed (without_last faults) dbs (refresh w) r).1 ≡ ok tt
        → HalfDone dbs loop refresh
            (refreshed (without_last faults) dbs (refresh w) r)
            (refreshed (with_last faults problem) dbs (refresh w) r)
    unfolding refreshed
    refreshed-HalfDone loop w (err e) l h = cc
    refreshed-HalfDone loop w (ok _) l h =
        rw (same_commits faults problem (refresh w).kg)
          (commit_kg-HalfDone loop w (commits_kg (without_last faults) (refresh w).kg) l h)

    finishes-HalfDone :
        (name : String) (loop : Loop J X (Writes J.Time))
        → (finishes name (without_last faults) dbs refresh loop).1 ≡ ok tt
        → HalfDone dbs loop refresh
            (finishes name (without_last faults) dbs refresh loop)
            (finishes name (with_last faults problem) dbs refresh loop)
    unfolding finishes
    finishes-HalfDone name (err (event, e)) h = cc
    finishes-HalfDone name (ok w) h =
        rw (same_refreshes faults problem w.touched)
          (refreshed-HalfDone (ok w) w (refreshes (without_last faults) w.touched) refl h)

    module _ (name : String) (handle : Writes J.Time → ParsedEvent J → Handled X (Writes J.Time))
        (events : List (ParsedEvent J)) where
      begun-HalfDone :
          (r : Result (ProjectionError X) (Unit {0}))
          → (begun name (without_last faults) dbs handle refresh events r).1 ≡ ok tt
          → HalfDone dbs
              (each_event handle (start dbs) events)
              refresh
              (begun name (without_last faults) dbs handle refresh events r)
              (begun name (with_last faults problem) dbs handle refresh events r)
      unfolding begun
      begun-HalfDone (err e) h = cc
      begun-HalfDone (ok _) h = finishes-HalfDone name (each_event handle (start dbs) events) h

      pub process_batch-HalfDone :
          (process_batch name (without_last faults) dbs handle refresh events).1 ≡ ok tt
          → HalfDone dbs
              (each_event handle (start dbs) events)
              refresh
              (process_batch name (without_last faults) dbs handle refresh events)
              (process_batch name (with_last faults problem) dbs handle refresh events)
      unfolding process_batch
      process_batch-HalfDone h =
          rw (same_begins faults problem dbs.kg)
            (begun-HalfDone (raise faults.begin_legacy >> begins_kg (without_last faults) dbs.kg) h)
