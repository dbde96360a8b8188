-- ===== src/Connections/Pool/Budgets.antt =====
-- How many permits the registered projections of crates/projections/src/main.rs are given, for
-- crates/projections/src/resilience/connection_manager.rs.
use Prim.Native.String.{String}
use intuition_core.Base.{
  ℕ, ◌+◌, ◌*◌, ◌≤◌, ◌≡◌, refl, arith, if◌then◌else◌, Bool, List, [], ◌∷◌, length, filter, same_text,
}
use intuition_core.Connections.Pool.{ConnectionTier, critical, standard, batch, permits, is_active}

-- The permits of a projection's tier: of its last registration.
abbrev pub limit_from : ℕ → List (String × ConnectionTier) → String → ℕ
limit_from n [] name = n
limit_from n ((key, tier) ∷ projections) name =
    limit_from (if same_text key name then permits tier else n) projections name

abbrev pub total_permits : List (String × ConnectionTier) → ℕ
total_permits [] = 0
total_permits ((key, tier) ∷ projections) = permits tier + total_permits projections

abbrev pub criticals : List (String × ConnectionTier) → ℕ
criticals [] = 0
criticals ((key, critical) ∷ projections) = criticals projections + 1
criticals ((key, standard) ∷ projections) = criticals projections
criticals ((key, batch) ∷ projections) = criticals projections

pub total_permits_lem :
    (projections : List (String × ConnectionTier))
    → total_permits projections ≡ 2 * length projections + 2 * criticals projections
unfolding permits
total_permits_lem [] = refl
total_permits_lem ((key, critical) ∷ projections) = omega (arith, total_permits_lem projections)
total_permits_lem ((key, standard) ∷ projections) = omega (arith, total_permits_lem projections)
total_permits_lem ((key, batch) ∷ projections) = omega (arith, total_permits_lem projections)

pub criticals-filter :
    (enabled : String → Bool) (projections : List (String × ConnectionTier))
    → (criticals (filter (is_active enabled) projections) ≤ criticals projections)
      × (length (filter (is_active enabled) projections) ≤ length projections)
criticals-filter enabled [] = (omega arith, omega arith)
criticals-filter enabled ((key, critical) ∷ projections) =
    let rest = criticals-filter enabled projections in ground (arith, rest)
criticals-filter enabled ((key, standard) ∷ projections) =
    let rest = criticals-filter enabled projections in ground (arith, rest)
criticals-filter enabled ((key, batch) ∷ projections) =
    let rest = criticals-filter enabled projections in ground (arith, rest)

pub criticals_le :
    (projections : List (String × ConnectionTier)) → criticals projections ≤ length projections
criticals_le [] = omega arith
criticals_le ((key, critical) ∷ projections) = omega (arith, criticals_le projections)
criticals_le ((key, standard) ∷ projections) = omega (arith, criticals_le projections)
criticals_le ((key, batch) ∷ projections) = omega (arith, criticals_le projections)
