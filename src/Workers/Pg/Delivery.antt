-- ===== src/Workers/Pg/Delivery.antt =====
-- No event is skipped by the worker of crates/projections/src/worker/pg.rs.
use Prim.Native.String.{String}
use mathlib.Core.List.{append_assoc, append-nil}
use intuition_core.Base.{
  ◌∙◌, ℕ, ◌≤◌, ◌≡◌, inl, inr, refl, sym, subst, ap, List, [], ◌∷◌, ◌++◌, arith, ok, err, Ascends,
  Ascends-append, Bool-cases,
}
use intuition_core.Events.{Serde, StoredEvent}
use intuition_core.Resilience.Breaker.{CircuitOpen}
use intuition_core.Resilience.Retry.{Ending, returns, falls_through, panicked, retry_with_backoff}
use intuition_core.Workers.Store.{read_batch_multi}
use intuition_core.Workers.Store.Reading.{seq}
use intuition_core.Workers.Cycle.{arrivals, Circumstances}
use intuition_core.Workers.Pg.{PgWorker, World, applied, on_batch, cycle, run}
use intuition_core.Workers.Pg.Invariant.{
  checkpoint_of, IsDelivered, Keeps, saved-Keeps, breaks, arrives,
}

module _ {J : Serde} {X : Type 0} (show_open : CircuitOpen → String) (show : ℕ → String)
    (self : PgWorker) where
  applied-Keeps :
      (w : World J) (env : Circumstances J X) (batch : List (StoredEvent J)) (ending : Ending X)
      → IsDelivered show self w
      → batch
        ≡ read_batch_multi w.event_store self.event_types
            (checkpoint_of show self w)
            self.config.batch_size
      → Keeps show self w (applied show_open show self w env batch ending).0
  unfolding applied
  applied-Keeps w env batch (returns (ok _)) v b = saved-Keeps show self w env.save_fails batch v b
  applied-Keeps w env batch (returns (err e)) v b = (omega arith, v, refl)
  applied-Keeps w env batch falls_through v b = (omega arith, v, refl)
  applied-Keeps w env batch panicked v b = (omega arith, v, refl)

  on_batch-Keeps :
      (w : World J) (env : Circumstances J X) (batch : List (StoredEvent J))
      → IsDelivered show self w
      → batch
        ≡ read_batch_multi w.event_store self.event_types
            (checkpoint_of show self w)
            self.config.batch_size
      → Keeps show self w (on_batch show_open show self w env batch).0
  unfolding on_batch
  on_batch-Keeps w env [] v b = (omega arith, v, refl)
  on_batch-Keeps w env (event ∷ events) v b =
      let r =
        retry_with_backoff self.retry_policy self.heartbeat show_open env.attempts
          w.circuit_breaker in
      applied-Keeps (record w { circuit_breaker = r.circuit_breaker }) env (event ∷ events) r.ending
        (breaks show self w r.circuit_breaker v) b

  pub cycle-Keeps :
      (w : World J) (env : Circumstances J X)
      → IsDelivered show self w
      → Keeps show self w (cycle show_open show self w env).0
  unfolding cycle
  cycle-Keeps w env v = elim (Bool-cases env.checkpoint_unreadable) [
    | inl y ↦ rw y (omega arith, v, refl)
    | inr o ↦ elim (Bool-cases env.batch_unreadable) [
      | inl y ↦ rw (o, y) (omega arith, v, refl)
      | inr p ↦ rw (o, p) (on_batch-Keeps w env _ v refl)
    ]
  ]

  -- Over any number of passes, with any failures to read, to process and to save: where the events that
  -- were there and that arrive have ascending sequence numbers, and every wanted event up to the
  -- checkpoint has been processed at the start, the checkpoint never moves back and at the end again
  -- every wanted event up to the checkpoint has been processed.
  pub run-IsDelivered :
      (w : World J) (envs : List (Circumstances J X))
      → Ascends seq 0 (w.event_store ++ arrivals envs)
      → IsDelivered show self w
      → (checkpoint_of show self w ≤ checkpoint_of show self (run show_open show self w envs).0)
        × IsDelivered show self (run show_open show self w envs).0
        × ((run show_open show self w envs).0.event_store ≡ w.event_store ++ arrivals envs)
  unfolding run
  run-IsDelivered w [] asc v = (omega arith, v, sym (append-nil w.event_store))
  run-IsDelivered w (env ∷ envs) asc v =
      let assoc = append_assoc w.event_store env.arrived (arrivals envs) in
      let asc' = subst (λ (x : List (StoredEvent J)). Ascends seq 0 x) (sym assoc) asc in
      let w₀ = record w { event_store = w.event_store ++ env.arrived } in
      let (le, v', same) =
        cycle-Keeps w₀ env
          (arrives show self w env.arrived (Ascends-append seq 0 _ (arrivals envs) asc').0 v) in
      let w' = (cycle show_open show self w₀ env).0 in
      let same_store = ap (λ (x : List (StoredEvent J)). x ++ arrivals envs) same in
      let (le', v'', same') =
        run-IsDelivered w' envs
          (subst (λ (x : List (StoredEvent J)). Ascends seq 0 x) (sym same_store) asc') v' in
      (omega (arith, le, le'), v'', same' ∙ (same_store ∙ assoc))
