-- ===== src/Workers/Surreal/Delivery.antt =====
-- No event is skipped unseen by the worker of crates/projections/src/worker/surreal.rs.
use Prim.Native.String.{String}
use intuition_core.Base.{
  ℕ, ◌≡◌, inl, inr, refl, sym, subst, Bool, true, false, List, [], ◌∷◌, ◌++◌, arith, ok, err, In,
  In-append_right, Bool-cases,
}
use intuition_core.Events.{Serde, StoredEvent}
use intuition_core.Events.Parsing.{ParsedEvent}
use intuition_core.Events.Envelope.{parse_or_unknown-keeps}
use intuition_core.Resilience.Breaker.{CircuitOpen}
use intuition_core.Resilience.Retry.{Ending, returns, falls_through, panicked, retry_with_backoff}
use intuition_core.Workers.Store.{read_batch_multi}
use intuition_core.Workers.Sink.{SinkOperation, DeadLetter}
use intuition_core.Workers.Sink.Letters.{Serialises, IsLettered}
use intuition_core.Workers.Cycle.{
  Circumstances, In-map-parsed, parsed, parse_batch_once, parse_batch_once-map,
}
use intuition_core.Workers.Surreal.{
  Worker, World, Projected, project_batch, apply_result, apply_ops, on_batch, cycle,
}
use intuition_core.Workers.Surreal.Accounting.{Accounted, Accounted-grow, project_all-Accounted}
use intuition_core.Workers.Surreal.Invariant.{
  checkpoint_of, AccountedIn, IsDelivered, Keeps, grows, breaks, letters_grow, succeeds-Keeps,
}

module _ {J : Serde} {X : Type 0} (show_open : CircuitOpen → String) (insert_fails : ℕ → Bool)
    (self : Worker J X) (serialises : Serialises J) (pool : self.dead_letter_pool ≡ true)
    (inserts : (n : ℕ) → insert_fails n ≡ false) where
  -- The events of a batch are accounted for by what the loop over them has gathered.
  project_batch-Accounted :
      (letters : List (DeadLetter J)) (batch : List (StoredEvent J))
      → ((e : StoredEvent J)
          → In e batch
          → AccountedIn self
              (project_batch insert_fails self letters batch).all_ops
              (project_batch insert_fails self letters batch).letters
              e)
        × ((k : ℕ)
            → IsLettered self.name k letters
            → IsLettered self.name k (project_batch insert_fails self letters batch).letters)
  unfolding project_batch
  project_batch-Accounted letters batch =
      let start : Projected J = record {
        all_ops = [];
        had_error = false;
        letters = letters;
        acts = (parse_batch_once batch).1;
      } in
      let (each, ops, kept) =
        project_all-Accounted self insert_fails serialises pool inserts start
          (parse_batch_once batch).0 in
      (
        λ e m.
            let here = each (parsed e) (
              subst (λ (x : List (ParsedEvent J)). In (parsed e) x)
                (sym (parse_batch_once-map batch)) (In-map-parsed e batch m)) in
            let same = (parse_or_unknown-keeps e).0 in
            subst
              (λ (n : ℕ).
                Accounted self (project_batch insert_fails self letters batch).all_ops
                  (project_batch insert_fails self letters batch).letters n
                  (self.project_parsed (parsed e)))
              same here,
        kept,
      )

  result-Keeps :
      (w : World J) (env : Circumstances J X) (batch : List (StoredEvent J))
      (ops : List (SinkOperation J)) (ending : Ending X)
      → IsDelivered self w
      → batch
        ≡ read_batch_multi w.event_store self.event_types
            (checkpoint_of self w)
            self.config.batch_size
      → ((e : StoredEvent J) → In e batch → AccountedIn self ops w.dead_letters e)
      → Keeps self w (apply_result show_open insert_fails self w env batch ops ending).0
  unfolding apply_result
  result-Keeps w env batch ops (returns (ok _)) v b a =
      succeeds-Keeps self show_open insert_fails (record w { applied = w.applied ++ ops }) env batch
        (grows self w w.circuit_breaker ops w.dead_letters (λ k n. n) v) b
        (λ e m.
          Accounted-grow self ops (w.applied ++ ops) w.dead_letters w.dead_letters e.sequence_number
            (self.project_parsed (parsed e)) (λ op n. In-append_right op w.applied ops n) (λ k n. n)
            (a e m))
  result-Keeps w env batch ops (returns (err e)) v b a = (omega arith, v, refl)
  result-Keeps w env batch ops falls_through v b a = (omega arith, v, refl)
  result-Keeps w env batch ops panicked v b a = (omega arith, v, refl)

  apply_ops-Keeps :
      (w : World J) (env : Circumstances J X) (batch : List (StoredEvent J))
      (ops : List (SinkOperation J))
      → IsDelivered self w
      → batch
        ≡ read_batch_multi w.event_store self.event_types
            (checkpoint_of self w)
            self.config.batch_size
      → ((e : StoredEvent J) → In e batch → AccountedIn self ops w.dead_letters e)
      → Keeps self w (apply_ops show_open insert_fails self w env batch ops).0
  unfolding apply_ops
  apply_ops-Keeps w env batch [] v b a =
      succeeds-Keeps self show_open insert_fails w env batch v b (λ e m.
        Accounted-grow self [] w.applied w.dead_letters w.dead_letters e.sequence_number
          (self.project_parsed (parsed e)) (λ op n. absurd n) (λ k n. n) (a e m))
  apply_ops-Keeps w env batch (op ∷ ops) v b a =
      let r =
        retry_with_backoff self.retry_policy self.heartbeat show_open env.attempts
          w.circuit_breaker in
      result-Keeps (record w { circuit_breaker = r.circuit_breaker }) env batch (op ∷ ops) r.ending
        (breaks self w r.circuit_breaker v) b a

  on_batch-Keeps :
      (w : World J) (env : Circumstances J X) (batch : List (StoredEvent J))
      → IsDelivered self w
      → batch
        ≡ read_batch_multi w.event_store self.event_types
            (checkpoint_of self w)
            self.config.batch_size
      → Keeps self w (on_batch show_open insert_fails self w env batch).0
  unfolding on_batch
  on_batch-Keeps w env [] v b = (omega arith, v, refl)
  on_batch-Keeps w env (event ∷ events) v b =
      let (each, kept) = project_batch-Accounted w.dead_letters (event ∷ events) in
      let p = project_batch insert_fails self w.dead_letters (event ∷ events) in
      apply_ops-Keeps (record w { dead_letters = p.letters }) env (event ∷ events) p.all_ops
        (letters_grow self w p.letters kept v) b each

  pub cycle-Keeps :
      (w : World J) (env : Circumstances J X)
      → IsDelivered self w
      → Keeps self w (cycle show_open insert_fails self w env).0
  unfolding cycle
  cycle-Keeps w env v = elim (Bool-cases env.checkpoint_unreadable) [
    | inl y ↦ rw y (omega arith, v, refl)
    | inr o ↦ elim (Bool-cases env.batch_unreadable) [
      | inl y ↦ rw (o, y) (omega arith, v, refl)
      | inr p ↦ rw (o, p) (on_batch-Keeps w env _ v refl)
    ]
  ]
