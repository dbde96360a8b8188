-- ===== src/Workers/Store/Checkpoints.antt =====
-- Reading a checkpoint back: crates/projections/src/resilience/checkpoint.rs.
use Prim.Native.String.{String}
use intuition_core.Base.{
  ℕ, ◌≡◌, ◌≢◌, ◌↔◌, ◌⊎◌, refl, inl, inr, List, [], ◌∷◌, arith, All, same_text, same_text_iff,
  Bool-cases,
}
use intuition_core.Workers.Store.{Checkpoint, checkpoint_key_of, get_checkpoint, save_checkpoint}

-- The rows under a pair's key are the rows of the pair.
abbrev pub IsKeyed : String → String → List Checkpoint → Type 0
IsKeyed p s rows =
    All
      (λ (row : Checkpoint).
        (row.checkpoint_key ≡ checkpoint_key_of p s)
        ↔ ((row.projection_name ≡ p) × (row.sink_name ≡ s)))
      rows

pub save_checkpoint-IsKeyed :
    (p s : String) (n b : ℕ) (rows : List Checkpoint)
    → IsKeyed p s rows
    → IsKeyed p s (save_checkpoint rows p s n b)
unfolding save_checkpoint
save_checkpoint-IsKeyed p s n b [] k = ((λ _. (refl, refl), λ _. refl), tt)
save_checkpoint-IsKeyed p s n b (row ∷ rows) (k, ks) =
    elim (Bool-cases (same_text row.checkpoint_key (checkpoint_key_of p s))) [
      | inl y ↦ rw y (k, ks)
      | inr o ↦ rw o (k, save_checkpoint-IsKeyed p s n b rows ks)
    ]

-- Where the rows under a pair's key are exactly the rows of the pair, the checkpoint that is saved for
-- the pair is read back, and no other pair reads anything else than before.
pub save_checkpoint-get_checkpoint :
    (p s : String) (n b : ℕ) (rows : List Checkpoint)
    → IsKeyed p s rows
    → (get_checkpoint (save_checkpoint rows p s n b) p s ≡ n)
      × ((q t : String)
          → (q ≢ p) ⊎ (t ≢ s)
          → get_checkpoint (save_checkpoint rows p s n b) q t ≡ get_checkpoint rows q t)
unfolding save_checkpoint get_checkpoint
save_checkpoint-get_checkpoint p s n b [] k = (
  ground (arith, same_text_iff p p, same_text_iff s s),
  λ q t d. ground (arith, same_text_iff p q, same_text_iff s t),
)
save_checkpoint-get_checkpoint p s n b (row ∷ rows) (k, ks) =
    let (same, other) = save_checkpoint-get_checkpoint p s n b rows ks in
    let key = same_text_iff row.checkpoint_key (checkpoint_key_of p s) in
    (
      ground
          (arith, same, k, key, same_text_iff row.projection_name p, same_text_iff row.sink_name s),
      λ q t d. ground (
        arith,
        other q t d,
        k,
        key,
        same_text_iff row.projection_name q,
        same_text_iff row.sink_name t,
      ),
    )
