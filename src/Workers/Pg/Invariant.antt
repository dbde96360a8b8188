-- ===== src/Workers/Pg/Invariant.antt =====
-- The events up to the checkpoint have been processed: what the steps of the poll loop of
-- crates/projections/src/worker/pg.rs keep.
use Prim.Native.String.{String}
use native.Mathlib.Decide.{dec_le}
use intuition_core.Base.{
  ℕ, ◌≤◌, ◌≡◌, inl, inr, refl, sym, subst, Bool, true, false, some, List, ◌++◌, arith, Result, ok,
  err, In, In-append_left, In-append_right, In-append-cases, Ascends, Ascends-append, top,
  top-append, top-le, last, Option-cases, Ascends-above,
}
use intuition_core.Events.{Serde, StoredEvent}
use intuition_core.Events.Parsing.{ParsedEvent}
use intuition_core.Resilience.Breaker.{CircuitBreaker}
use intuition_core.Workers.Store.{read_batch_multi, get_checkpoint, save_checkpoint, is_wanted}
use intuition_core.Workers.Store.Checkpoints.{
  IsKeyed, save_checkpoint-IsKeyed, save_checkpoint-get_checkpoint,
}
use intuition_core.Workers.Store.Reading.{seq, batch_complete, batch_last}
use intuition_core.Workers.Cycle.{
  In-map-parsed, parsed, parse_batch_once, parse_batch_once-map, resolve_checkpoint_target,
}
use intuition_core.Workers.Pg.{
  PgWorker, World, checkpoint_name, save_checkpoint_and_record_metrics, write_checkpoint, saved,
}

module _ {J : Serde} (show : ℕ → String) (self : PgWorker) where
  abbrev pub checkpoint_of : World J → ℕ
  checkpoint_of w = get_checkpoint w.checkpoints (checkpoint_name show self) "pg"

  -- Every wanted event up to the checkpoint has been processed, and the checkpoint is not above the
  -- events.
  pub record IsDelivered (w : World J) : Type 0 where
    pub keyed : IsKeyed (checkpoint_name show self) "pg" w.checkpoints
    pub ascends : Ascends seq 0 w.event_store
    pub reached : checkpoint_of w ≤ top seq 0 w.event_store
    pub delivered :
        (e : StoredEvent J)
        → In e w.event_store
        → is_wanted self.event_types e ≡ true
        → e.sequence_number ≤ checkpoint_of w
        → In (parsed e) w.processed

  processes :
      (w : World J) (ps : List (ParsedEvent J))
      → IsDelivered w
      → IsDelivered (record w { processed = w.processed ++ ps })
  processes w ps v = record {
    keyed = v.keyed;
    ascends = v.ascends;
    reached = v.reached;
    delivered = λ e m wanted le. In-append_left _ _ _ (v.delivered e m wanted le);
  }

  -- The checkpoint is moved to the last event of a processed batch.
  advances :
      (w : World J) (l : StoredEvent J) (batch : List (StoredEvent J))
      → IsDelivered w
      → batch
        ≡ read_batch_multi w.event_store self.event_types (checkpoint_of w) self.config.batch_size
      → last batch ≡ some l
      → let rows =
          save_checkpoint w.checkpoints
            (checkpoint_name show self)
            "pg"
            l.sequence_number
            l.block_number in
        (checkpoint_of w ≤ checkpoint_of (record w { checkpoints = rows }))
        × IsDelivered
            (record w { processed = w.processed ++ (parse_batch_once batch).0; checkpoints = rows })
  advances w l batch v b q =
      let name = checkpoint_name show self in
      let c = checkpoint_of w in
      let q' = subst (λ (x : List (StoredEvent J)). last x ≡ some l) b q in
      let (after, top) =
        batch_last w.event_store self.event_types c self.config.batch_size l v.ascends q' in
      let saved =
        (save_checkpoint-get_checkpoint name "pg" l.sequence_number l.block_number w.checkpoints
          v.keyed).0 in
      (
        omega (arith, saved, after),
        record {
          keyed =
              save_checkpoint-IsKeyed name "pg" l.sequence_number l.block_number w.checkpoints
                v.keyed;
          ascends = v.ascends;
          reached = omega (arith, saved, top);
          delivered = λ e m wanted le. elim (dec_le e.sequence_number c) [
            | yes old ↦ In-append_left _ _ _ (v.delivered e m wanted old)
            | no new ↦ In-append_right _ _ _ (
                subst (λ (x : List (ParsedEvent J)). In (parsed e) x)
                  (sym (parse_batch_once-map batch))
                  (In-map-parsed e batch (
                    subst (λ (x : List (StoredEvent J)). In e x) (sym b)
                      (batch_complete w.event_store self.event_types c self.config.batch_size l e
                        v.ascends q' m wanted (omega (arith, new)) (omega (arith, le, saved))))))
          ];
        },
      )

  -- What a pass keeps: the invariant, and a checkpoint that is not lower.
  abbrev pub Keeps : World J → World J → Type 0
  Keeps w w' =
      (checkpoint_of w ≤ checkpoint_of w') × IsDelivered w' × (w'.event_store ≡ w.event_store)

  stays :
      (w : World J) (batch : List (StoredEvent J))
      → IsDelivered w
      → Keeps w (record w { processed = w.processed ++ (parse_batch_once batch).0 })
  stays w batch v = (omega arith, processes w (parse_batch_once batch).0 v, refl)

  resolved :
      (batch : List (StoredEvent J)) (target : ℕ × ℕ)
      → resolve_checkpoint_target batch ≡ ok target
      → (l : StoredEvent J) × (last batch ≡ some l) × (target ≡ (l.sequence_number, l.block_number))
  unfolding resolve_checkpoint_target
  resolved batch target h = elim (Option-cases (last batch)) [
    | inl q ↦ let h' = rw (q, resolve_checkpoint_target) at h in cc
    | inr (l, q) ↦ let h' = rw (q, resolve_checkpoint_target) at h in (l, q, cc)
  ]

  written-Keeps :
      (w : World J) (save_fails : Bool) (batch : List (StoredEvent J))
      (target : Result (Unit {0}) (ℕ × ℕ))
      → resolve_checkpoint_target batch ≡ target
      → IsDelivered w
      → batch
        ≡ read_batch_multi w.event_store self.event_types (checkpoint_of w) self.config.batch_size
      → Keeps w
          (saved show self batch (
            write_checkpoint show self
              (record w { processed = w.processed ++ (parse_batch_once batch).0 })
              save_fails
              target)).0
  unfolding saved write_checkpoint
  written-Keeps w save_fails batch (err _) q v b = stays w batch v
  written-Keeps w true batch (ok target) q v b = stays w batch v
  written-Keeps w false batch (ok target) q v b =
      let (l, e, t) = resolved batch target q in
      let (le, v') = advances w l batch v b e in
      subst
        (λ (x : ℕ × ℕ). Keeps w (record w {
          processed = w.processed ++ (parse_batch_once batch).0;
          checkpoints = save_checkpoint w.checkpoints (checkpoint_name show self) "pg" x.0 x.1;
        }))
        (sym t) (le, v', refl)

  pub saved-Keeps :
      (w : World J) (save_fails : Bool) (batch : List (StoredEvent J))
      → IsDelivered w
      → batch
        ≡ read_batch_multi w.event_store self.event_types (checkpoint_of w) self.config.batch_size
      → Keeps w
          (saved show self batch (
            save_checkpoint_and_record_metrics show self
              (record w { processed = w.processed ++ (parse_batch_once batch).0 })
              batch
              save_fails)).0
  unfolding save_checkpoint_and_record_metrics
  saved-Keeps w save_fails batch v b =
      written-Keeps w save_fails batch (resolve_checkpoint_target batch) refl v b

  pub breaks :
      (w : World J) (cb : CircuitBreaker)
      → IsDelivered w
      → IsDelivered (record w { circuit_breaker = cb })
  breaks w cb v = record {
    keyed = v.keyed;
    ascends = v.ascends;
    reached = v.reached;
    delivered = v.delivered;
  }

  pub arrives :
      (w : World J) (events : List (StoredEvent J))
      → Ascends seq 0 (w.event_store ++ events)
      → IsDelivered w
      → IsDelivered (record w { event_store = w.event_store ++ events })
  arrives w events asc v =
      let (old, new) = Ascends-append seq 0 w.event_store events asc in
      let split = top-append seq 0 w.event_store events in
      record {
        keyed = v.keyed;
        ascends = asc;
        reached = omega (arith, v.reached, split, top-le seq _ events new);
        delivered = λ e m wanted le. elim (In-append-cases e w.event_store events m) [
          | inl l ↦ v.delivered e l wanted le
          | inr r ↦
              let above = Ascends-above seq _ events e new r in
              absurd (omega (arith, v.reached, above, le))
        ];
      }
