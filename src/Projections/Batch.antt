-- ===== src/Projections/Batch.antt =====
-- The frame of `process_parsed_batch` that the dual projections of
-- crates/projections/src/projection/dual share: two transactions, the loop over the events with its
-- treatment of errors, and the two commits. `W` is what the transactions hold.
pub mod Atomicity
pub mod HalfDone
pub mod Keeps
use Prim.Native.String.{String}
use intuition_core.Base.{ℕ, Bool, Option, none, some, List, [], ◌∷◌, Result, ok, err, ◌>>◌}
use intuition_core.Errors.{
  ErrorClass, fatal, transient, circuit_protected, ProjectionError, classify,
}
use intuition_core.Events.{Serde}
use intuition_core.Events.Parsing.{ParsedEvent, sequence_number}
use intuition_core.Workers.Sink.{DeadLetter, record_fatal_event}
use intuition_core.Projections.Tables.{Vaults, Positions, History, MarketEvents, VaultKey}

pub record Legacy (Time : Type 0) : Type 0 where
  pub vaults : Vaults Time
  pub history : History Time
  pub positions : Positions

pub record Kg (Time : Type 0) : Type 0 where
  pub vaults : Vaults Time
  pub events : MarketEvents Time
  pub positions : Positions

-- `kg` is `none` where no pool is configured.
pub record Databases (J : Serde) : Type 0 where
  pub legacy : Legacy J.Time
  pub kg : Option (Kg J.Time)
  pub dead_letters : List (DeadLetter J)

-- What the two transactions have written, and the vaults that the batch has touched.
pub record Writes (Time : Type 0) : Type 0 where
  pub legacy : Legacy Time
  pub kg : Option (Kg Time)
  pub touched : List VaultKey

-- The errors that the databases return: to the opening of a transaction, to a statement of an event, to
-- a refresh and to a commit.
pub record Faults (X : Type 0) : Type 0 where
  pub begin_legacy : Option (ProjectionError X)
  pub begin_kg : Option (ProjectionError X)
  pub statement : ℕ → Option (ProjectionError X)
  pub refresh : Option (ProjectionError X)
  pub commit_kg : Option (ProjectionError X)
  pub commit_legacy : Option (ProjectionError X)
  pub letter : ℕ → Bool

pub data Handled (X : Type 0) (W : Type 0) : Type 0 where
  skipped : Handled X W
  written : W → Handled X W
  failed : ProjectionError X → Handled X W

abbrev pub raise : {X : Type 0} → Option (ProjectionError X) → Result (ProjectionError X) (Unit {0})
raise none = ok tt
raise (some e) = err e

-- The event that ended the loop, with its error, or what was written.
abbrev pub Loop : Serde → Type 0 → Type 0 → Type 0
Loop J X W = Result (ParsedEvent J × ProjectionError X) W

abbrev pub Outcome : Serde → Type 0 → Type 0
Outcome J X = Databases J × Result (ProjectionError X) (Unit {0})

module _ {Time X : Type 0} where
  -- Without a second database nothing is begun or committed there.
  abbrev pub begins_kg : Faults X → Option (Kg Time) → Result (ProjectionError X) (Unit {0})
  begins_kg faults none = ok tt
  begins_kg faults (some kg) = raise faults.begin_kg

  abbrev pub commits_kg : Faults X → Option (Kg Time) → Result (ProjectionError X) (Unit {0})
  commits_kg faults none = ok tt
  commits_kg faults (some kg) = raise faults.commit_kg

-- The refreshes are run for the touched vaults only.
abbrev pub refreshes :
    {X : Type 0} → Faults X → List VaultKey → Result (ProjectionError X) (Unit {0})
refreshes faults [] = ok tt
refreshes faults (key ∷ keys) = raise faults.refresh

module _ {J : Serde} {X W : Type 0} where
  abbrev pub goes_on : Handled X W → W → ParsedEvent J → (W → Loop J X W) → Loop J X W
  goes_on skipped w event rest = rest w
  goes_on (written w') w event rest = rest w'
  goes_on (failed e) w event rest = err (event, e)

  unfoldable pub each_event :
      (W → ParsedEvent J → Handled X W) → W → List (ParsedEvent J) → Loop J X W
  each_event handle w [] = ok w
  each_event handle w (event ∷ events) =
      goes_on (handle w event) w event (λ w'. each_event handle w' events)

module _ {J : Serde} {X : Type 0} where
  -- Both transactions are rolled back; a fatal error leaves a dead letter.
  unfoldable pub rolled_back :
      String → Faults X → Databases J → ParsedEvent J → ProjectionError X → ErrorClass → Databases J
  unfolding record_fatal_event
  rolled_back name faults dbs event e transient = dbs
  rolled_back name faults dbs event e circuit_protected = dbs
  rolled_back name faults dbs event e fatal = record dbs {
    dead_letters =
        record_fatal_event (faults.letter (sequence_number event)) dbs.dead_letters name event e;
  }

  commit_legacy : Databases J → Writes J.Time → Result (ProjectionError X) (Unit {0}) → Outcome J X
  commit_legacy dbs w (err e) = (dbs, err e)
  commit_legacy dbs w (ok _) = (record dbs { legacy = w.legacy }, ok tt)

  commit_kg :
      Faults X → Databases J → Writes J.Time → Result (ProjectionError X) (Unit {0}) → Outcome J X
  unfolding commit_legacy
  commit_kg faults dbs w (err e) = (dbs, err e)
  commit_kg faults dbs w (ok _) =
      commit_legacy (record dbs { kg = w.kg }) w (raise faults.commit_legacy)

  refreshed :
      Faults X → Databases J → Writes J.Time → Result (ProjectionError X) (Unit {0}) → Outcome J X
  unfolding commit_kg
  refreshed faults dbs w (err e) = (dbs, err e)
  refreshed faults dbs w (ok _) = commit_kg faults dbs w (commits_kg faults w.kg)

  unfoldable pub finishes :
      String
      → Faults X
      → Databases J
      → (Writes J.Time → Writes J.Time)
      → Loop J X (Writes J.Time)
      → Outcome J X
  unfolding refreshed rolled_back
  finishes name faults dbs refresh (err (event, e)) =
      (rolled_back name faults dbs event e (classify e), err e)
  finishes name faults dbs refresh (ok w) =
      refreshed faults dbs (refresh w) (refreshes faults w.touched)

  begun :
      String
      → Faults X
      → Databases J
      → (Writes J.Time → ParsedEvent J → Handled X (Writes J.Time))
      → (Writes J.Time → Writes J.Time)
      → List (ParsedEvent J)
      → Result (ProjectionError X) (Unit {0})
      → Outcome J X
  unfolding finishes each_event
  begun name faults dbs handle refresh events (err e) = (dbs, err e)
  begun name faults dbs handle refresh events (ok _) =
      finishes name faults dbs refresh
        (each_event handle (record { legacy = dbs.legacy; kg = dbs.kg; touched = [] }) events)

  unfoldable pub process_batch :
      String
      → Faults X
      → Databases J
      → (Writes J.Time → ParsedEvent J → Handled X (Writes J.Time))
      → (Writes J.Time → Writes J.Time)
      → List (ParsedEvent J)
      → Outcome J X
  unfolding begun
  process_batch name faults dbs handle refresh events =
      begun name faults dbs handle refresh events
        (raise faults.begin_legacy >> begins_kg faults dbs.kg)
