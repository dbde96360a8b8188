-- ===== src/Projections/Batch/Keeps.antt =====
-- An invariant of what a batch has written, through the loop over the events and the commits of
-- crates/projections/src/projection/dual.
use intuition_core.Base.{◌≡◌, subst, List, [], ◌∷◌, ok, All}
use intuition_core.Events.{Serde}
use intuition_core.Events.Parsing.{ParsedEvent}
use intuition_core.Projections.Batch.{Handled, skipped, written, failed, Loop, goes_on, each_event}

module _ {W : Type 0} (P : W → Type 0) where
  abbrev pub HandledKeeps : {X : Type 0} → Handled X W → Type 0
  HandledKeeps skipped = Unit
  HandledKeeps (written w) = P w
  HandledKeeps (failed e) = Unit

  module _ {J : Serde} {X : Type 0} (G : ParsedEvent J → Type 0)
      (handle : W → ParsedEvent J → Handled X W)
      (keeps : (w : W) (event : ParsedEvent J)
        → G event
        → P w
        → HandledKeeps (handle w event)) where
    goes_on-Keeps :
        (h : Handled X W) (w w' : W) (event : ParsedEvent J) (rest : W → Loop J X W)
        → HandledKeeps h
        → P w
        → goes_on h w event rest ≡ ok w'
        → ((v : W) → P v → rest v ≡ ok w' → P w')
        → P w'
    goes_on-Keeps skipped w w' event rest k p e later = later w p e
    goes_on-Keeps (written v) w w' event rest k p e later = later v k e
    goes_on-Keeps (failed x) w w' event rest k p e later = cc

    pub each_event-Keeps :
        (events : List (ParsedEvent J)) (w w' : W)
        → All G events
        → P w
        → each_event handle w events ≡ ok w'
        → P w'
    unfolding each_event
    each_event-Keeps [] w w' g p e = let same : w ≡ w' = cc e in subst P same p
    each_event-Keeps (event ∷ events) w w' (g, gs) p e =
        goes_on-Keeps (handle w event) w w' event (λ v. each_event handle v events)
          (keeps w event g p) p e (λ v q r. each_event-Keeps events v w' gs q r)
