-- ===== src/Connections/Shard.antt =====
-- crates/projections/src/shard.rs. The 64-bit hash of the fixed ahash state over the two identifiers is
-- a parameter.
use Prim.Native.String.{String}
use native.Mathlib.Nat.{mod-lt}
use intuition_core.Base.{
  ℕ, ◌%◌, ◌^◌, ◌<◌, ◌≡◌, arith, Bool, true, false, Option, none, some, leb, ltb, ◌==◌,
  if◌then◌else◌,
}

module _ (hash : String → String → ℕ) where
  -- `none` is the failed assertion.
  unfoldable pub calculate_shard : String → String → ℕ → Option ℕ
  calculate_shard term_id curve_id total_shards =
      if ltb 0 total_shards then some (hash term_id curve_id % total_shards % 2 ^ 32) else none

  abbrev is_shard : Option ℕ → ℕ → Bool
  is_shard none shard_id = false
  is_shard (some s) shard_id = s == shard_id

  unfoldable pub belongs_to_shard : String → String → ℕ → ℕ → Bool
  unfolding calculate_shard
  belongs_to_shard term_id curve_id shard_id total_shards =
      if leb total_shards 1
      then true
      else is_shard (calculate_shard term_id curve_id total_shards) shard_id

  -- Whatever the hash, of a positive 32-bit number of shards exactly one owns a vault, and it is never a
  -- failed assertion that decides.
  pub belongs_to_shard_once :
      (term_id curve_id : String) (total_shards : ℕ)
      → 0 < total_shards
      → total_shards < 2 ^ 32
      → (s : ℕ) × (s < total_shards)
        × (belongs_to_shard term_id curve_id s total_shards ≡ true)
        × ((t : ℕ)
            → t < total_shards
            → belongs_to_shard term_id curve_id t total_shards ≡ true
            → t ≡ s)
  unfolding belongs_to_shard
  belongs_to_shard_once term_id curve_id total_shards positive word =
      let h = hash term_id curve_id in
      let below = mod-lt h {m = total_shards} in
      (
        h % total_shards,
        ground (arith, below),
        ground (arith, below),
        λ t lt owns. ground (arith, below),
      )
