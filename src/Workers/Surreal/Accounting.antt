-- ===== src/Workers/Surreal/Accounting.antt =====
-- What becomes of each event of a batch: the loop over the parsed events of
-- crates/projections/src/worker/surreal.rs.
use intuition_core.Base.{
  ℕ, ◌≡◌, refl, inl, inr, sym, subst, Bool, true, false, List, [], ◌∷◌, Result, ok, err, All, In,
  In-append_left, In-append_right,
}
use intuition_core.Errors.{
  ErrorClass, fatal, transient, circuit_protected, ProjectionError, classify,
}
use intuition_core.Events.{Serde}
use intuition_core.Events.Parsing.{ParsedEvent, sequence_number}
use intuition_core.Workers.Sink.{SinkOperation, DeadLetter}
use intuition_core.Workers.Sink.Letters.{Serialises, IsLettered, record_fatal_event-IsLettered}
use intuition_core.Workers.Surreal.{Worker, Projected, dead_letter, project_next, project_all}

module _ {J : Serde} {X : Type 0} (self : Worker J X) where
  -- The operations of an event are among those given; a fatal error of an event is in the table. Of any
  -- other error nothing is kept.
  abbrev pub Accounted :
      List (SinkOperation J)
      → List (DeadLetter J)
      → ℕ
      → Result (ProjectionError X) (List (SinkOperation J))
      → Type 0
  Accounted ops letters n (ok made) = All (λ (op : SinkOperation J). In op ops) made
  Accounted ops letters n (err e) = classify e ≡ fatal → IsLettered self.name n letters

  All-In :
      (made ops ops' : List (SinkOperation J))
      → ((op : SinkOperation J) → In op ops → In op ops')
      → All (λ (op : SinkOperation J). In op ops) made
      → All (λ (op : SinkOperation J). In op ops') made
  All-In [] ops ops' f a = tt
  All-In (x ∷ made) ops ops' f (a, rest) = (f x a, All-In made ops ops' f rest)

  All-In-self :
      (made ops : List (SinkOperation J))
      → ((op : SinkOperation J) → In op made → In op ops)
      → All (λ (op : SinkOperation J). In op ops) made
  All-In-self [] ops f = tt
  All-In-self (x ∷ made) ops f = (f x (inl refl), All-In-self made ops (λ op m. f op (inr m)))

  pub Accounted-grow :
      (ops ops' : List (SinkOperation J)) (letters letters' : List (DeadLetter J)) (n : ℕ)
      (r : Result (ProjectionError X) (List (SinkOperation J)))
      → ((op : SinkOperation J) → In op ops → In op ops')
      → ((k : ℕ) → IsLettered self.name k letters → IsLettered self.name k letters')
      → Accounted ops letters n r
      → Accounted ops' letters' n r
  Accounted-grow ops ops' letters letters' n (ok made) f g a = All-In made ops ops' f a
  Accounted-grow ops ops' letters letters' n (err e) f g a = λ q. g n (a q)

  module _ (insert_fails : ℕ → Bool) (serialises : Serialises J)
      (pool : self.dead_letter_pool ≡ true) (inserts : (n : ℕ) → insert_fails n ≡ false) where
    letter_kept :
        (letters : List (DeadLetter J)) (event : ParsedEvent J) (e : ProjectionError X)
        (class : ErrorClass)
        → (class ≡ fatal
            → IsLettered self.name
                (sequence_number event)
                (dead_letter insert_fails self letters event e class true))
          × ((k : ℕ)
              → IsLettered self.name k letters
              → IsLettered self.name k (dead_letter insert_fails self letters event e class true))
    unfolding dead_letter
    letter_kept letters event e fatal =
        let (new, old) = record_fatal_event-IsLettered serialises letters self.name event e in
        rw (inserts (sequence_number event)) (λ _. new, old self.name)
    letter_kept letters event e transient = (λ q. cc, λ k m. m)
    letter_kept letters event e circuit_protected = (λ q. cc, λ k m. m)

    next-Accounted :
        (p : Projected J) (event : ParsedEvent J)
        (r : Result (ProjectionError X) (List (SinkOperation J)))
        → Accounted
            (project_next insert_fails self p event r).all_ops
            (project_next insert_fails self p event r).letters
            (sequence_number event)
            r
          × ((op : SinkOperation J)
              → In op p.all_ops
              → In op (project_next insert_fails self p event r).all_ops)
          × ((k : ℕ)
              → IsLettered self.name k p.letters
              → IsLettered self.name k (project_next insert_fails self p event r).letters)
    unfolding project_next dead_letter
    next-Accounted p event (ok ops) = (
      All-In-self ops _ (λ op m. In-append_right op p.all_ops ops m),
      λ op m. In-append_left op p.all_ops ops m,
      λ k m. m,
    )
    next-Accounted p event (err e) =
        let (new, old) = letter_kept p.letters event e (classify e) in rw pool (new, λ op m. m, old)

    pub project_all-Accounted :
        (p : Projected J) (events : List (ParsedEvent J))
        → ((event : ParsedEvent J)
            → In event events
            → Accounted
                (project_all insert_fails self p events).all_ops
                (project_all insert_fails self p events).letters
                (sequence_number event)
                (self.project_parsed event))
          × ((op : SinkOperation J)
              → In op p.all_ops
              → In op (project_all insert_fails self p events).all_ops)
          × ((k : ℕ)
              → IsLettered self.name k p.letters
              → IsLettered self.name k (project_all insert_fails self p events).letters)
    unfolding project_all
    project_all-Accounted p [] = (λ event m. absurd m, λ op m. m, λ k m. m)
    project_all-Accounted p (x ∷ events) =
        let next = project_next insert_fails self p x (self.project_parsed x) in
        let (here, ops, letters) = next-Accounted p x (self.project_parsed x) in
        let (there, ops', letters') = project_all-Accounted next events in
        (
          λ event m. elim m [
            | inl e ↦
                subst
                  (λ (y : ParsedEvent J).
                    Accounted (project_all insert_fails self next events).all_ops
                      (project_all insert_fails self next events).letters (sequence_number y)
                      (self.project_parsed y))
                  (sym e)
                  (Accounted-grow _ _ _ _ (sequence_number x) (self.project_parsed x) ops' letters'
                    here)
            | inr n ↦ there event n
          ],
          λ op m. ops' op (ops op m),
          λ k m. letters' k (letters k m),
        )
