-- ===== src/Workers/Store.antt =====
-- The two tables the workers read and write: crates/projections/src/event/reader.rs (the query of the
-- event store, whose rows are kept here in the order of their sequence numbers) and
-- crates/projections/src/resilience/checkpoint.rs (the upsert by `checkpoint_key`).
pub mod Checkpoints
pub mod Reading
use Prim.Native.String.{String, ◌++◌ as text_append}
use intuition_core.Base.{
  ℕ, ltb, if◌then◌else◌, Bool, true, false, ◌&&◌, Option, none, some, List, [], ◌∷◌, map, take,
  filter, same_text,
}
use intuition_core.Events.{EventType, as_str, Serde, StoredEvent}

-- `event_type = ANY(types)`.
abbrev pub any_type : List EventType → String → Bool
any_type [] s = false
any_type (t ∷ ts) s = if same_text s (as_str t) then true else any_type ts s

-- The rows that a worker for these types is to see.
unfoldable pub is_wanted : {J : Serde} → List EventType → StoredEvent J → Bool
is_wanted types e = any_type types e.event_type && e.is_canonical

abbrev pub is_after : {J : Serde} → List EventType → ℕ → StoredEvent J → Bool
is_after types after_sequence e = ltb after_sequence e.sequence_number && is_wanted types e

unfoldable pub read_batch_multi :
    {J : Serde} → List (StoredEvent J) → List EventType → ℕ → ℕ → List (StoredEvent J)
read_batch_multi event_store types after_sequence batch_size =
    take batch_size (filter (is_after types after_sequence) event_store)

pub record Checkpoint : Type 0 where
  pub checkpoint_key : String
  pub projection_name : String
  pub sink_name : String
  pub last_sequence_number : Option ℕ
  pub last_block_number : Option ℕ

unfoldable pub checkpoint_key_of : String → String → String
checkpoint_key_of projection_name sink_name =
    text_append projection_name (text_append ":" sink_name)

abbrev is_row_of : String → String → Checkpoint → Bool
is_row_of projection_name sink_name row =
    same_text row.projection_name projection_name && same_text row.sink_name sink_name

abbrev pub unwrap_or : Option ℕ → ℕ → ℕ
unwrap_or none d = d
unwrap_or (some n) d = n

unfoldable pub get_checkpoint : List Checkpoint → String → String → ℕ
get_checkpoint [] projection_name sink_name = 0
get_checkpoint (row ∷ rows) projection_name sink_name =
    let rest = get_checkpoint rows projection_name sink_name in
    if is_row_of projection_name sink_name row then unwrap_or row.last_sequence_number 0 else rest

unfoldable pub save_checkpoint : List Checkpoint → String → String → ℕ → ℕ → List Checkpoint
unfolding checkpoint_key_of
save_checkpoint [] projection_name sink_name sequence_number block_number =
    record {
      checkpoint_key = checkpoint_key_of projection_name sink_name;
      projection_name = projection_name;
      sink_name = sink_name;
      last_sequence_number = some sequence_number;
      last_block_number = some block_number;
    }
    ∷ []
save_checkpoint (row ∷ rows) projection_name sink_name sequence_number block_number =
    let rest = save_checkpoint rows projection_name sink_name sequence_number block_number in
    if same_text row.checkpoint_key (checkpoint_key_of projection_name sink_name)
    then record row {
      last_sequence_number = some sequence_number;
      last_block_number = some block_number;
    }
      ∷ rows
    else row ∷ rest
