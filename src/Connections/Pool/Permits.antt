-- ===== src/Connections/Pool/Permits.antt =====
-- The permits of `PoolPartitioner` in crates/projections/src/resilience/connection_manager.rs that are
-- held at any time, by projection and together.
use Prim.Native.String.{String}
use intuition_core.Base.{
  ℕ, ◌+◌, ◌*◌, ◌≤◌, ◌<◌, ◌^◌, ◌≡◌, inl, inr, refl, ◌∙◌, ap, arith, Bool, true, Option, none, some,
  List, [], ◌∷◌, length, same_text, same_text_iff, Bool-cases,
}
use intuition_core.Connections.Pool.{
  Polled, pending, closed, granted, Semaphores, ConnectionTier, permits, Use, polls, drops,
  PoolPartitioner, insert, get, collect, specs, active, build_pool_partitioner, new,
  total_pool_size, waited, timed_out, looked_up, given_back, acquire, drop_permit, Pool, granted_to,
  is_held, without, step, run,
}
use intuition_core.Connections.Pool.Budgets.{
  limit_from, total_permits, total_permits_lem, criticals, criticals-filter, criticals_le,
}
use intuition_core.Connections.Pool.Slots.{
  count, count-without, available, total, total-insert, available-insert,
}

module _ (T : Semaphores) where
  abbrev Limited : String → ℕ → ℕ → Pool T → Type 0
  Limited name limit all pool =
      (count pool.held name + available T (get T pool.partitioner.semaphores name) ≤ limit)
      × (length pool.held + total T pool.partitioner.semaphores ≤ all)

  waited-Limited :
      (p : PoolPartitioner T) (held : List String) (k name : String) (expired : Bool)
      (s : T.Semaphore) (r : Polled T.Semaphore) (limit all : ℕ)
      → get T p.semaphores k ≡ some s
      → T.poll s ≡ r
      → Limited name limit all (record { partitioner = p; held = held })
      → Limited name limit all
          (granted_to T (record { partitioner = p; held = held }) k (waited T p k expired r))
  unfolding granted_to waited timed_out
  waited-Limited p held k name expired s pending limit all g e v = ground (arith, v)
  waited-Limited p held k name expired s closed limit all g e v = v
  waited-Limited p held k name expired s (granted t) limit all g e (v, w) =
      let one = T.permits_of-poll s t e in
      let sum = total-insert T p.semaphores k t in
      let sum' : total T (insert T p.semaphores k t) + T.permits_of s
          ≡ total T p.semaphores + T.permits_of t =
        rw g at sum in
      let (to, _) = same_text_iff k name in
      elim (Bool-cases (same_text k name)) [
        | inl y ↦
            let same : k ≡ name = to y in
            let g' : get T p.semaphores name ≡ some s = rw (← same) g in
            let v' : count held name + T.permits_of s ≤ limit = rw g' at v in
            rw (available-insert T p.semaphores k name t, y) (omega arith, omega arith)
        | inr o ↦ rw (available-insert T p.semaphores k name t, o) (v, omega arith)
      ]

  looked_up-Limited :
      (p : PoolPartitioner T) (held : List String) (k name : String) (expired : Bool)
      (found : Option T.Semaphore) (limit all : ℕ)
      → get T p.semaphores k ≡ found
      → Limited name limit all (record { partitioner = p; held = held })
      → Limited name limit all
          (granted_to T (record { partitioner = p; held = held }) k (looked_up T p k expired found))
  unfolding looked_up granted_to
  looked_up-Limited p held k name expired none limit all g v = v
  looked_up-Limited p held k name expired (some s) limit all g v =
      waited-Limited p held k name expired s (T.poll s) limit all g refl v

  given_back-Limited :
      (p : PoolPartitioner T) (held : List String) (k name : String) (found : Option T.Semaphore)
      (limit all : ℕ)
      → get T p.semaphores k ≡ found
      → is_held held k ≡ true
      → Limited name limit all (record { partitioner = p; held = held })
      → Limited name limit all
          (record { partitioner = given_back T p k found; held = without held k })
  unfolding given_back
  given_back-Limited p held k name none limit all g h (v, w) =
      let (short, fewer) = count-without held k name h in
      (ground (arith, fewer, v), omega (arith, short, w))
  given_back-Limited p held k name (some s) limit all g h (v, w) =
      let (short, fewer) = count-without held k name h in
      let one = T.permits_of-release s in
      let sum = total-insert T p.semaphores k (T.release s) in
      let sum' : total T (insert T p.semaphores k (T.release s)) + T.permits_of s
          ≡ total T p.semaphores + T.permits_of (T.release s) =
        rw g at sum in
      let (to, _) = same_text_iff k name in
      elim (Bool-cases (same_text k name)) [
        | inl y ↦
            let same : k ≡ name = to y in
            let g' : get T p.semaphores name ≡ some s = rw (← same) g in
            let v' : count held name + T.permits_of s ≤ limit = rw g' at v in
            let fewer' : count (without held k) name + 1 ≡ count held name = rw y at fewer in
            rw (available-insert T p.semaphores k name (T.release s), y) (omega arith, omega arith)
        | inr o ↦
            let fewer' : count (without held k) name + 0 ≡ count held name = rw o at fewer in
            rw (available-insert T p.semaphores k name (T.release s), o) (omega arith, omega arith)
      ]

  step-Limited :
      (pool : Pool T) (u : Use) (name : String) (limit all : ℕ)
      → Limited name limit all pool
      → Limited name limit all (step T pool u)
  unfolding step acquire drop_permit
  step-Limited pool (polls k expired) name limit all v =
      looked_up-Limited pool.partitioner pool.held k name expired _ limit all refl v
  step-Limited pool (drops k) name limit all v = elim (Bool-cases (is_held pool.held k)) [
    | inl h ↦ rw h (given_back-Limited pool.partitioner pool.held k name _ limit all refl h v)
    | inr o ↦ rw o v
  ]

  run-Limited :
      (pool : Pool T) (uses : List Use) (name : String) (limit all : ℕ)
      → Limited name limit all pool
      → Limited name limit all (run T pool uses)
  unfolding run
  run-Limited pool [] name limit all v = v
  run-Limited pool (u ∷ uses) name limit all v =
      run-Limited (step T pool u) uses name limit all (step-Limited pool u name limit all v)

  collect-available :
      (m : List (String × T.Semaphore)) (projections : List (String × ConnectionTier))
      (name : String)
      → available T (get T (collect T m projections) name)
        ≡ limit_from (available T (get T m name)) projections name
  unfolding collect
  collect-available m [] name = refl
  collect-available m ((key, tier) ∷ projections) name =
      collect-available (insert T m key (T.create (permits tier))) projections name
      ∙ ap (λ (n : ℕ). limit_from n projections name)
          (rw
            (
              available-insert T m key name (T.create (permits tier)),
              T.permits_of-create (permits tier),
            )
            refl)

  collect-total :
      (m : List (String × T.Semaphore)) (projections : List (String × ConnectionTier))
      → total T (collect T m projections) ≤ total T m + total_permits projections
  unfolding collect
  collect-total m [] = omega arith
  collect-total m ((key, tier) ∷ projections) =
      let rest = collect-total (insert T m key (T.create (permits tier))) projections in
      let sum = total-insert T m key (T.create (permits tier)) in
      let fresh = T.permits_of-create (permits tier) in omega arith

  abbrev pub idle_pool : PoolPartitioner T → Pool T
  idle_pool p = record { partitioner = p; held = [] }

  -- Whatever the tasks do with a new pool: a projection never holds more permits than the tier of its
  -- last registration allows, one that was not registered none, and all together hold no more than the
  -- tiers' permits.
  pub run-new-held :
      (env_max env_timeout : Option ℕ) (projections : List (String × ConnectionTier))
      (override timeout : Option ℕ) (uses : List Use) (name : String)
      → (count
            (run T (idle_pool (new T env_max env_timeout projections override timeout)) uses).held
            name
          ≤ limit_from 0 projections name)
        × (length
              (run T (idle_pool (new T env_max env_timeout projections override timeout)) uses).held
            ≤ total_permits projections)
  unfolding new get
  run-new-held env_max env_timeout projections override timeout uses name =
      let start : Limited name (limit_from 0 projections name) (total_permits projections)
          (idle_pool (new T env_max env_timeout projections override timeout)) =
        (
          omega (arith, collect-available [] projections name),
          omega (arith, collect-total [] projections),
        ) in
      let (v, w) =
        run-Limited (idle_pool (new T env_max env_timeout projections override timeout)) uses name
          (limit_from 0 projections name) (total_permits projections) start in
      (omega arith, omega arith)

  run-new-held_fit :
      (env_timeout : Option ℕ) (projections : List (String × ConnectionTier)) (timeout : Option ℕ)
      (uses : List Use)
      → 3 * length projections + 5 < 2 ^ 32
      → 2 * criticals projections ≤ length projections + 5
      → length (run T (idle_pool (new T none env_timeout projections none timeout)) uses).held
        ≤ total_pool_size T (new T none env_timeout projections none timeout)
  unfolding new total_pool_size
  run-new-held_fit env_timeout projections timeout uses small balanced =
      let (_, all) = run-new-held none env_timeout projections none timeout uses "" in
      let sum = total_permits_lem projections in omega (arith, all, sum)

  -- Whichever projections are enabled, and unless the environment or the configuration sets another
  -- ceiling: the permits that are held never exceed the ceiling of the connection pool.
  pub build_pool_partitioner-held :
      (env_timeout : Option ℕ) (enabled : String → Bool) (timeout : Option ℕ) (uses : List Use)
      → length
          (run T
            (idle_pool (build_pool_partitioner T none env_timeout enabled none timeout))
            uses).held
        ≤ total_pool_size T (build_pool_partitioner T none env_timeout enabled none timeout)
  unfolding build_pool_partitioner active specs
  build_pool_partitioner-held env_timeout enabled timeout uses =
      let (few, short) = criticals-filter enabled specs in
      let le = criticals_le (active enabled) in
      run-new-held_fit env_timeout (active enabled) timeout uses (omega arith) (omega arith)
