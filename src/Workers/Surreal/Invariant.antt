-- ===== src/Workers/Surreal/Invariant.antt =====
-- What becomes of the events up to the checkpoint: what the steps of the poll loop of
-- crates/projections/src/worker/surreal.rs keep.
use Prim.Native.String.{String}
use native.Mathlib.Decide.{dec_le}
use intuition_core.Base.{
  ℕ, ◌≤◌, ◌≡◌, inl, inr, refl, sym, subst, Bool, true, false, Option, none, some, List, ◌++◌, arith,
  In, In-append_left, In-append-cases, Ascends, Ascends-append, Ascends-above, top, top-append,
  top-le, last,
}
use intuition_core.Events.{Serde, StoredEvent}
use intuition_core.Resilience.Breaker.{CircuitBreaker, CircuitOpen}
use intuition_core.Workers.Store.{read_batch_multi, get_checkpoint, save_checkpoint, is_wanted}
use intuition_core.Workers.Store.Checkpoints.{
  IsKeyed, save_checkpoint-IsKeyed, save_checkpoint-get_checkpoint,
}
use intuition_core.Workers.Store.Reading.{seq, batch_complete, batch_last}
use intuition_core.Workers.Sink.{SinkOperation, DeadLetter}
use intuition_core.Workers.Sink.Letters.{IsLettered}
use intuition_core.Workers.Cycle.{Circumstances, parsed}
use intuition_core.Workers.Surreal.{
  Worker, World, write_checkpoint, save_checkpoint_and_record_metrics, succeeds,
}
use intuition_core.Workers.Surreal.Accounting.{Accounted, Accounted-grow}

module _ {J : Serde} {X : Type 0} (self : Worker J X) where
  abbrev pub checkpoint_of : World J → ℕ
  checkpoint_of w = get_checkpoint w.checkpoints self.name self.sink_name

  abbrev pub AccountedIn : List (SinkOperation J) → List (DeadLetter J) → StoredEvent J → Type 0
  AccountedIn ops letters e =
      Accounted self ops letters e.sequence_number (self.project_parsed (parsed e))

  -- Every wanted event up to the checkpoint is accounted for: its operations have been applied, or its
  -- fatal error is in the dead-letter table.
  pub record IsDelivered (w : World J) : Type 0 where
    pub keyed : IsKeyed self.name self.sink_name w.checkpoints
    pub ascends : Ascends seq 0 w.event_store
    pub reached : checkpoint_of w ≤ top seq 0 w.event_store
    pub delivered :
        (e : StoredEvent J)
        → In e w.event_store
        → is_wanted self.event_types e ≡ true
        → e.sequence_number ≤ checkpoint_of w
        → AccountedIn w.applied w.dead_letters e

  -- What a pass keeps: the invariant, a checkpoint that is not lower, and the event store.
  abbrev pub Keeps : World J → World J → Type 0
  Keeps w w' =
      (checkpoint_of w ≤ checkpoint_of w') × IsDelivered w' × (w'.event_store ≡ w.event_store)

  -- More letters, and operations.
  pub grows :
      (w : World J) (cb : CircuitBreaker) (ops : List (SinkOperation J))
      (letters : List (DeadLetter J))
      → ((k : ℕ) → IsLettered self.name k w.dead_letters → IsLettered self.name k letters)
      → IsDelivered w
      → IsDelivered
          (record w { circuit_breaker = cb; applied = w.applied ++ ops; dead_letters = letters })
  grows w cb ops letters g v = record {
    keyed = v.keyed;
    ascends = v.ascends;
    reached = v.reached;
    delivered = λ e m wanted le.
        Accounted-grow self w.applied (w.applied ++ ops) w.dead_letters letters e.sequence_number
          (self.project_parsed (parsed e)) (λ op n. In-append_left op w.applied ops n) g
          (v.delivered e m wanted le);
  }

  pub breaks :
      (w : World J) (cb : CircuitBreaker)
      → IsDelivered w
      → IsDelivered (record w { circuit_breaker = cb })
  breaks w cb v = record {
    keyed = v.keyed;
    ascends = v.ascends;
    reached = v.reached;
    delivered = v.delivered;
  }

  pub letters_grow :
      (w : World J) (letters : List (DeadLetter J))
      → ((k : ℕ) → IsLettered self.name k w.dead_letters → IsLettered self.name k letters)
      → IsDelivered w
      → IsDelivered (record w { dead_letters = letters })
  letters_grow w letters g v = record {
    keyed = v.keyed;
    ascends = v.ascends;
    reached = v.reached;
    delivered = λ e m wanted le.
        Accounted-grow self w.applied w.applied w.dead_letters letters e.sequence_number
          (self.project_parsed (parsed e)) (λ op n. n) g (v.delivered e m wanted le);
  }

  -- The checkpoint is moved to the last event of a batch whose events are accounted for.
  advances :
      (w : World J) (l : StoredEvent J) (batch : List (StoredEvent J))
      → IsDelivered w
      → batch
        ≡ read_batch_multi w.event_store self.event_types (checkpoint_of w) self.config.batch_size
      → ((e : StoredEvent J) → In e batch → AccountedIn w.applied w.dead_letters e)
      → last batch ≡ some l
      → let rows =
          save_checkpoint w.checkpoints self.name self.sink_name l.sequence_number l.block_number in
        Keeps w (record w { checkpoints = rows })
  advances w l batch v b a q =
      let c = checkpoint_of w in
      let q' = subst (λ (x : List (StoredEvent J)). last x ≡ some l) b q in
      let (after, top) =
        batch_last w.event_store self.event_types c self.config.batch_size l v.ascends q' in
      let saved =
        (save_checkpoint-get_checkpoint self.name self.sink_name l.sequence_number l.block_number
          w.checkpoints v.keyed).0 in
      (
        omega (arith, saved, after),
        record {
          keyed =
              save_checkpoint-IsKeyed self.name self.sink_name l.sequence_number l.block_number
                w.checkpoints v.keyed;
          ascends = v.ascends;
          reached = omega (arith, saved, top);
          delivered = λ e m wanted le. elim (dec_le e.sequence_number c) [
            | yes old ↦ v.delivered e m wanted old
            | no new ↦ a e (
                subst (λ (x : List (StoredEvent J)). In e x) (sym b)
                  (batch_complete w.event_store self.event_types c self.config.batch_size l e
                    v.ascends q' m wanted (omega (arith, new)) (omega (arith, le, saved))))
          ];
        },
        refl,
      )

  written-Keeps :
      (show_open : CircuitOpen → String) (insert_fails : ℕ → Bool) (w : World J) (save_fails : Bool)
      (batch : List (StoredEvent J)) (found : Option (StoredEvent J))
      → last batch ≡ found
      → IsDelivered w
      → batch
        ≡ read_batch_multi w.event_store self.event_types (checkpoint_of w) self.config.batch_size
      → ((e : StoredEvent J) → In e batch → AccountedIn w.applied w.dead_letters e)
      → Keeps w (write_checkpoint show_open insert_fails self w save_fails found).0
  unfolding write_checkpoint
  written-Keeps so fails w save_fails batch none q v b a = (omega arith, v, refl)
  written-Keeps so fails w true batch (some l) q v b a = (omega arith, v, refl)
  written-Keeps so fails w false batch (some l) q v b a = advances w l batch v b a q

  pub succeeds-Keeps :
      (show_open : CircuitOpen → String) (insert_fails : ℕ → Bool) (w : World J)
      (env : Circumstances J X) (batch : List (StoredEvent J))
      → IsDelivered w
      → batch
        ≡ read_batch_multi w.event_store self.event_types (checkpoint_of w) self.config.batch_size
      → ((e : StoredEvent J) → In e batch → AccountedIn w.applied w.dead_letters e)
      → Keeps w (succeeds show_open insert_fails self w env batch).0
  unfolding succeeds save_checkpoint_and_record_metrics
  succeeds-Keeps so fails w env batch v b a =
      written-Keeps so fails w env.save_fails batch (last batch) refl v b a

  pub arrives :
      (w : World J) (events : List (StoredEvent J))
      → Ascends seq 0 (w.event_store ++ events)
      → IsDelivered w
      → IsDelivered (record w { event_store = w.event_store ++ events })
  arrives w events asc v =
      let (old, new) = Ascends-append seq 0 w.event_store events asc in
      let split = top-append seq 0 w.event_store events in
      record {
        keyed = v.keyed;
        ascends = asc;
        reached = omega (arith, v.reached, split, top-le seq _ events new);
        delivered = λ e m wanted le. elim (In-append-cases e w.event_store events m) [
          | inl l ↦ v.delivered e l wanted le
          | inr r ↦
              let above = Ascends-above seq _ events e new r in
              absurd (omega (arith, v.reached, above, le))
        ];
      }
