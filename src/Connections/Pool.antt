-- ===== src/Connections/Pool.antt =====
-- `PoolPartitioner` of crates/projections/src/resilience/connection_manager.rs. Tokio's semaphore is a
-- parameter. The names of the permits that are held stand beside the pool.
pub mod Budgets
pub mod Slots
pub mod Permits
use Prim.Native.String.{String}
use intuition_core.Base.{
  ℕ, ◌+◌, ◌*◌, ◌%◌, ◌^◌, ◌≡◌, if◌then◌else◌, Bool, false, ◌||◌, Option, none, some, List, [], ◌∷◌,
  length, filter, same_text, Result, err, ok,
}

-- What polling the future of `Semaphore::acquire` gives; `granted` has the semaphore that is left.
pub data Polled (S : Type 0) : Type 0 where
  pending : Polled S
  closed : Polled S
  granted : S → Polled S

-- The semaphore, and what its documentation says of the number of its permits: those that no task
-- holds, with those that are set aside for a waiting task.
pub record Semaphores : Type 1 where
  pub Semaphore : Type 0
  pub create : ℕ → Semaphore
  pub permits_of : Semaphore → ℕ
  pub poll : Semaphore → Polled Semaphore
  pub release : Semaphore → Semaphore
  pub permits_of-create : (n : ℕ) → permits_of (create n) ≡ n
  pub permits_of-poll : (s t : Semaphore) → poll s ≡ granted t → permits_of s ≡ permits_of t + 1
  pub permits_of-release : (s : Semaphore) → permits_of (release s) ≡ permits_of s + 1

pub data ConnectionTier : Type 0 where
  critical : ConnectionTier
  standard : ConnectionTier
  batch : ConnectionTier

unfoldable pub permits : ConnectionTier → ℕ
permits critical = 4
permits standard = 2
permits batch = 2

pub data ConnectionError : Type 0 where
  acquire_timeout : String → ℕ → ConnectionError
  unknown_projection : String → ConnectionError

-- What tasks do with the pool: `polls` is a poll of a task's `acquire`, `drops` the end of the life of
-- a permit.
pub data Use : Type 0 where
  polls : String → Bool → Use
  drops : String → Use

abbrev pub or : Option ℕ → Option ℕ → Option ℕ
or none second = second
or (some n) second = some n

abbrev pub unwrap_or : Option ℕ → ℕ → ℕ
unwrap_or none d = d
unwrap_or (some n) d = n

abbrev pub is_held : List String → String → Bool
is_held [] name = false
is_held (h ∷ hs) name = same_text h name || is_held hs name

abbrev pub without : List String → String → List String
without [] name = []
without (h ∷ hs) name = let rest = without hs name in if same_text h name then hs else h ∷ rest

-- crates/projections/src/main.rs: the projections that use the pool.
unfoldable pub specs : List (String × ConnectionTier)
specs =
    ("vault_state", critical)
    ∷ ("position_tracking", critical)
    ∷ ("core_entities", critical)
    ∷ ("event_log", standard)
    ∷ ("account_registry", standard)
    ∷ ("vault_holders_index", standard)
    ∷ ("vault_state:dual", critical)
    ∷ ("vault_holders_index:dual", standard)
    ∷ ("atom_context:dual", standard)
    ∷ ("signals_analytics", standard)
    ∷ ("term_aggregates", standard)
    ∷ ("protocol_stats", standard)
    ∷ ("activity_marker", standard)
    ∷ ("leaderboard_marker", standard)
    ∷ ("leaderboard_refresh", batch)
    ∷ ("funnel_tracker", batch)
    ∷ ("user_activity_batch", batch)
    ∷ []

abbrev pub is_active : (String → Bool) → String × ConnectionTier → Bool
is_active is_projection_enabled (name, tier) = is_projection_enabled name

unfoldable pub active : (String → Bool) → List (String × ConnectionTier)
unfolding specs
active is_projection_enabled = filter (is_active is_projection_enabled) specs

module _ (T : Semaphores) where
  pub record PoolPartitioner : Type 0 where
    pub semaphores : List (String × T.Semaphore)
    pub pool_size : ℕ
    pub acquire_timeout_secs : ℕ

  -- The hash map: a key that is there already gets the new value.
  unfoldable pub insert :
      List (String × T.Semaphore) → String → T.Semaphore → List (String × T.Semaphore)
  insert [] name s = (name, s) ∷ []
  insert ((key, t) ∷ rest) name s =
      let inserted = insert rest name s in
      if same_text key name then (key, s) ∷ rest else (key, t) ∷ inserted

  unfoldable pub get : List (String × T.Semaphore) → String → Option T.Semaphore
  get [] name = none
  get ((key, t) ∷ rest) name =
      let found = get rest name in if same_text key name then some t else found

  unfoldable pub collect :
      List (String × T.Semaphore) → List (String × ConnectionTier) → List (String × T.Semaphore)
  unfolding permits
  collect map [] = map
  collect map ((name, tier) ∷ projections) =
      collect (insert map name (T.create (permits tier))) projections

  -- The two environment variables come first; 32-bit arithmetic wraps.
  unfoldable pub new :
      Option ℕ → Option ℕ → List (String × ConnectionTier) → Option ℕ → Option ℕ → PoolPartitioner
  new env_max_connections env_timeout_secs projections pool_override timeout_secs = record {
    semaphores = collect [] projections;
    pool_size =
        unwrap_or (or env_max_connections pool_override)
          ((3 * (length projections % 2 ^ 32) % 2 ^ 32 + 5) % 2 ^ 32);
    acquire_timeout_secs = unwrap_or (or env_timeout_secs timeout_secs) 5;
  }

  -- `is_projection_enabled`, the configured ceiling and the configured timeout are the configuration.
  unfoldable pub build_pool_partitioner :
      Option ℕ → Option ℕ → (String → Bool) → Option ℕ → Option ℕ → PoolPartitioner
  unfolding new active
  build_pool_partitioner env_max env_timeout is_projection_enabled pool_max timeout_secs =
      new env_max env_timeout (active is_projection_enabled) pool_max timeout_secs

  unfoldable pub total_pool_size : PoolPartitioner → ℕ
  total_pool_size p = p.pool_size

  unfoldable pub available_permits : PoolPartitioner → String → Option ℕ
  unfolding get
  available_permits p name = elim (get p.semaphores name) [
    | none ↦ none
    | some s ↦ some (T.permits_of s)
  ]

  -- What one poll of the timed wait gives: `none` when the wait goes on. The permit is asked for before
  -- the deadline is looked at.
  unfoldable pub timed_out :
      PoolPartitioner → String → Bool → Option (PoolPartitioner × Result ConnectionError (Unit {0}))
  timed_out p name expired =
      if expired then some (p, err (acquire_timeout name p.acquire_timeout_secs)) else none

  unfoldable pub waited :
      PoolPartitioner
      → String
      → Bool
      → Polled T.Semaphore
      → Option (PoolPartitioner × Result ConnectionError (Unit {0}))
  unfolding timed_out insert
  waited p name expired pending = timed_out p name expired
  waited p name expired closed = some (p, err (acquire_timeout name p.acquire_timeout_secs))
  waited p name expired (granted s) =
      some (record p { semaphores = insert p.semaphores name s }, ok tt)

  unfoldable pub looked_up :
      PoolPartitioner
      → String
      → Bool
      → Option T.Semaphore
      → Option (PoolPartitioner × Result ConnectionError (Unit {0}))
  unfolding waited
  looked_up p name expired none = some (p, err (unknown_projection name))
  looked_up p name expired (some s) = waited p name expired (T.poll s)

  unfoldable pub acquire :
      PoolPartitioner → String → Bool → Option (PoolPartitioner × Result ConnectionError (Unit {0}))
  unfolding looked_up get
  acquire p name expired = looked_up p name expired (get p.semaphores name)

  -- A permit that is dropped goes back to its semaphore.
  unfoldable pub given_back : PoolPartitioner → String → Option T.Semaphore → PoolPartitioner
  unfolding insert
  given_back p name none = p
  given_back p name (some s) = record p { semaphores = insert p.semaphores name (T.release s) }

  unfoldable pub drop_permit : PoolPartitioner → String → PoolPartitioner
  unfolding given_back get
  drop_permit p name = given_back p name (get p.semaphores name)

  pub record Pool : Type 0 where
    pub partitioner : PoolPartitioner
    pub held : List String

  unfoldable pub granted_to :
      Pool → String → Option (PoolPartitioner × Result ConnectionError (Unit {0})) → Pool
  granted_to pool name none = pool
  granted_to pool name (some (p, err problem)) = record pool { partitioner = p }
  granted_to pool name (some (p, ok _)) = record { partitioner = p; held = name ∷ pool.held }

  unfoldable pub step : Pool → Use → Pool
  unfolding acquire drop_permit granted_to
  step pool (polls name expired) = granted_to pool name (acquire pool.partitioner name expired)
  step pool (drops name) =
      if is_held pool.held name
      then record { partitioner = drop_permit pool.partitioner name; held = without pool.held name }
      else pool

  unfoldable pub run : Pool → List Use → Pool
  unfolding step
  run pool [] = pool
  run pool (use' ∷ uses) = run (step pool use') uses
