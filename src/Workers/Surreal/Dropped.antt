-- ===== src/Workers/Surreal/Dropped.antt =====
-- Events whose projection fails with an error that is not fatal:
-- crates/projections/src/worker/surreal.rs skips them.
use Prim.Native.String.{String}
use intuition_core.Base.{
  ℕ, ◌≡◌, ◌≢◌, ◌∙◌, refl, subst, Bool, true, false, Option, none, some, List, [], ◌∷◌, err, All,
  last,
}
use intuition_core.Errors.{
  ErrorClass, fatal, transient, circuit_protected, ProjectionError, classify,
}
use intuition_core.Events.{Serde, StoredEvent}
use intuition_core.Events.Parsing.{ParsedEvent}
use intuition_core.Resilience.Breaker.{CircuitOpen}
use intuition_core.Workers.Store.{read_batch_multi}
use intuition_core.Workers.Store.Checkpoints.{IsKeyed, save_checkpoint-get_checkpoint}
use intuition_core.Workers.Sink.{SinkOperation, DeadLetter}
use intuition_core.Workers.Cycle.{Circumstances, parsed, parse_batch_once}
use intuition_core.Workers.Surreal.{
  dead_letter, Worker, World, Projected, project_next, project_all, project_batch, write_checkpoint,
  save_checkpoint_and_record_metrics, succeeds, apply_ops, on_batch, cycle,
}
use intuition_core.Workers.Surreal.Invariant.{checkpoint_of}

module _ {J : Serde} {X : Type 0} (insert_fails : ℕ → Bool) (self : Worker J X) where
  -- The projection of the event fails with an error that is not fatal.
  abbrev pub FailsSoftly : ParsedEvent J → Type 0
  FailsSoftly event =
      (e : ProjectionError X) × (self.project_parsed event ≡ err e) × (classify e ≢ fatal)

  no_letter :
      (letters : List (DeadLetter J)) (event : ParsedEvent J) (e : ProjectionError X)
      (class : ErrorClass) (pool : Bool)
      → class ≢ fatal
      → dead_letter insert_fails self letters event e class pool ≡ letters
  unfolding dead_letter
  no_letter letters event e fatal pool n = absurd (n refl)
  no_letter letters event e transient pool n = refl
  no_letter letters event e circuit_protected pool n = refl

  project_all-nothing :
      (p : Projected J) (events : List (ParsedEvent J))
      → All FailsSoftly events
      → ((project_all insert_fails self p events).all_ops ≡ p.all_ops)
        × ((project_all insert_fails self p events).letters ≡ p.letters)
  unfolding project_all project_next
  project_all-nothing p [] a = (refl, refl)
  project_all-nothing p (x ∷ events) ((e, q, n), rest) =
      let next = project_next insert_fails self p x (err e) in
      let (ops, letters) = project_all-nothing next events rest in
      let same = no_letter p.letters x e (classify e) self.dead_letter_pool n in
      rw (q, project_all) (ops, letters ∙ same)

  parsed-All :
      (batch : List (StoredEvent J))
      → All (λ (e : StoredEvent J). FailsSoftly (parsed e)) batch
      → All FailsSoftly (parse_batch_once batch).0
  unfolding parse_batch_once
  parsed-All [] a = tt
  parsed-All (e ∷ batch) (f, rest) = (f, parsed-All batch rest)

  project_batch-nothing :
      (letters : List (DeadLetter J)) (batch : List (StoredEvent J))
      → All (λ (e : StoredEvent J). FailsSoftly (parsed e)) batch
      → ((project_batch insert_fails self letters batch).all_ops ≡ [])
        × ((project_batch insert_fails self letters batch).letters ≡ letters)
  unfolding project_batch
  project_batch-nothing letters batch a =
      project_all-nothing _ (parse_batch_once batch).0 (parsed-All batch a)

module _ {J : Serde} {X : Type 0} (show_open : CircuitOpen → String) (insert_fails : ℕ → Bool)
    (self : Worker J X) where
  write_saves :
      (w : World J) (save_fails : Bool) (found : Option (StoredEvent J)) (l : StoredEvent J)
      → save_fails ≡ false
      → IsKeyed self.name self.sink_name w.checkpoints
      → found ≡ some l
      → let w' = (write_checkpoint show_open insert_fails self w save_fails found).0 in
        (checkpoint_of self w' ≡ l.sequence_number)
        × (w'.applied ≡ w.applied)
        × (w'.dead_letters ≡ w.dead_letters)
  unfolding write_checkpoint
  write_saves w true found l s k q = cc
  write_saves w false none l s k q = cc
  write_saves w false (some x) l s k q =
      let saved =
        (save_checkpoint-get_checkpoint self.name self.sink_name x.sequence_number x.block_number
          w.checkpoints k).0 in
      let e : x ≡ l = cc q in
      (
        subst
            (λ (y : StoredEvent J).
              checkpoint_of self (write_checkpoint show_open insert_fails self w false (some x)).0
              ≡ y.sequence_number)
            e saved,
        refl,
        refl,
      )

  apply_nothing :
      (w : World J) (env : Circumstances J X) (batch : List (StoredEvent J)) (l : StoredEvent J)
      (ops : List (SinkOperation J)) (letters : List (DeadLetter J))
      → env.save_fails ≡ false
      → IsKeyed self.name self.sink_name w.checkpoints
      → last batch ≡ some l
      → ops ≡ []
      → letters ≡ w.dead_letters
      → let w' =
          (apply_ops show_open insert_fails self
            (record w { dead_letters = letters })
            env
            batch
            ops).0 in
        (checkpoint_of self w' ≡ l.sequence_number)
        × (w'.applied ≡ w.applied)
        × (w'.dead_letters ≡ w.dead_letters)
  unfolding apply_ops succeeds save_checkpoint_and_record_metrics
  apply_nothing w env batch l [] letters s k q o g =
      let (c, a, d) =
        write_saves (record w { dead_letters = letters }) env.save_fails (last batch) l s k q in
      (c, a, d ∙ g)
  apply_nothing w env batch l (op ∷ ops) letters s k q o g = cc

  on_batch-drops :
      (w : World J) (env : Circumstances J X) (batch : List (StoredEvent J)) (l : StoredEvent J)
      → env.save_fails ≡ false
      → IsKeyed self.name self.sink_name w.checkpoints
      → last batch ≡ some l
      → All (λ (e : StoredEvent J). FailsSoftly insert_fails self (parsed e)) batch
      → (checkpoint_of self (on_batch show_open insert_fails self w env batch).0
          ≡ l.sequence_number)
        × ((on_batch show_open insert_fails self w env batch).0.applied ≡ w.applied)
        × ((on_batch show_open insert_fails self w env batch).0.dead_letters ≡ w.dead_letters)
  unfolding on_batch
  on_batch-drops w env [] l s k q a = cc
  on_batch-drops w env (e ∷ es) l s k q a =
      let (ops, letters) = project_batch-nothing insert_fails self w.dead_letters (e ∷ es) a in
      apply_nothing w env (e ∷ es) l _ _ s k q ops letters

  -- Where a batch is read whose events all fail projection with an error that is not fatal, and the
  -- checkpoint can be saved, the checkpoint moves to the last of them although the sink and the
  -- dead-letter table are what they were: the events are not seen again.
  pub cycle-drops :
      (w : World J) (env : Circumstances J X) (l : StoredEvent J)
      → env.checkpoint_unreadable ≡ false
      → env.batch_unreadable ≡ false
      → env.save_fails ≡ false
      → IsKeyed self.name self.sink_name w.checkpoints
      → last (
          read_batch_multi w.event_store self.event_types
            (checkpoint_of self w)
            self.config.batch_size)
        ≡ some l
      → All
          (λ (e : StoredEvent J). FailsSoftly insert_fails self (parsed e))
          (read_batch_multi w.event_store self.event_types
            (checkpoint_of self w)
            self.config.batch_size)
      → (checkpoint_of self (cycle show_open insert_fails self w env).0 ≡ l.sequence_number)
        × ((cycle show_open insert_fails self w env).0.applied ≡ w.applied)
        × ((cycle show_open insert_fails self w env).0.dead_letters ≡ w.dead_letters)
  unfolding cycle
  cycle-drops w env l c b s k q a = rw (c, b) (on_batch-drops w env _ l s k q a)
