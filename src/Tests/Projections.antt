-- ===== src/Tests/Projections.antt =====
-- A batch of two deposits and a redemption on two databases, and what is left where a commit fails.
use Prim.Native.String.{String}
use intuition_core.Base.{
  ℕ, ◌≡◌, refl, true, false, inl, Option, none, some, List, [], ◌∷◌, ok, err, ℤ, pos, Eq, ◌==◌,
  ==_iff, find, update, upsert, count_if, delete_if, ◌+ℤ◌, ◌-ℤ◌, pair_eq, text_eq,
}
use intuition_core.Errors.{sink}
use intuition_core.Events.{deposited, redeemed}
use intuition_core.Events.Parsing.{EventMetadata, ParsedEvent, typed}
use intuition_core.Tests.Events.{json, payload_of}
use intuition_core.Projections.Tables.{Externals, Vault, Position, Positions, VaultKey}
use intuition_core.Projections.Batch.{Databases, Faults, each_event}
use intuition_core.Projections.Batch.Atomicity.{start, Leaves}
use intuition_core.Projections.Batch.HalfDone.{with_last}
use intuition_core.Projections.VaultState as VaultState
use intuition_core.Projections.VaultState.{VaultStateDualProjection, refresh_touched}
use intuition_core.Projections.VaultState.Ledger.{Balanced, deposits_of}
use intuition_core.Projections.VaultState.Entries.{entries_of}
use intuition_core.Projections.VaultState.Totals.{
  Accounts, KgBalanced, process_parsed_batch-Leaves, process_parsed_batch-Accounts,
  process_parsed_batch-replayed,
}
use intuition_core.Projections.Holders as Holders
use intuition_core.Projections.Holders.Positive.{BothPositive, process_parsed_batch-BothPositive}
use intuition_core.Projections.Holders.Counted.{BothCount, process_parsed_batch-BothCount}

instance abbrev pub number_eq : Eq ℕ
number_eq = record { same = ◌==◌; same_iff = ==_iff }

abbrev externals : Externals json
externals = record {
  amount = pos;
  decimal_to_string = λ d. "1";
  canonical_shard_key = λ d. "1";
  number_to_string = λ n. "0";
  u256_from_str = λ s. some 5;
}

abbrev pub metadata : ℕ → EventMetadata json
metadata n = record {
  sequence_number = n;
  block_number = 100;
  block_timestamp = 1000;
  block_hash = "h";
  transaction_hash = "t";
  log_index = n;
  event_type = "Deposited";
  term_id = none;
  entity_id = none;
  is_canonical = true;
  ingested_at = 1000;
}

abbrev events : List (ParsedEvent json)
events =
    typed (metadata 1) deposited (payload_of deposited)
    ∷ typed (metadata 2) redeemed (payload_of redeemed)
    ∷ typed (metadata 3) deposited (payload_of deposited)
    ∷ []

abbrev dbs : Databases json
dbs = record {
  legacy = record { vaults = []; history = []; positions = [] };
  kg = some (record { vaults = []; events = []; positions = [] });
  dead_letters = [];
}

abbrev calm : Faults String
calm = record {
  begin_legacy = none;
  begin_kg = none;
  statement = λ n. none;
  refresh = none;
  commit_kg = none;
  commit_legacy = none;
  letter = λ n. false;
}

abbrev shard : VaultStateDualProjection
shard = record { hash = λ a b. 17; shard_id = 0; total_shards = 1 }

abbrev vault : VaultKey
vault = ("0x01", "1")

succeeds : (VaultState.process_parsed_batch externals shard 7 calm dbs events).1 ≡ ok tt
unfolding VaultState.process_parsed_batch
succeeds = refl

again :
    (VaultState.process_parsed_batch externals shard 8 calm
      (VaultState.process_parsed_batch externals shard 7
        (with_last calm (sink "down"))
        dbs
        events).0
      events).1
    ≡ ok tt
unfolding VaultState.process_parsed_batch
again = refl

process_parsed_batch-Leaves_example :
    Leaves calm dbs
      (each_event (VaultState.handle externals shard 7 calm.statement) (start dbs) events)
      refresh_touched
      (VaultState.process_parsed_batch externals shard 7 calm dbs events)
process_parsed_batch-Leaves_example = process_parsed_batch-Leaves externals shard 7 calm dbs events

process_parsed_batch-Accounts_example :
    Accounts vault
      (entries_of externals String shard events)
      dbs.legacy
      (VaultState.process_parsed_batch externals shard 7 calm dbs events).0.legacy
      dbs.kg
      (VaultState.process_parsed_batch externals shard 7 calm dbs events).0.kg
process_parsed_batch-Accounts_example =
    process_parsed_batch-Accounts externals shard 7 calm dbs events vault succeeds

process_parsed_batch-replayed_example :
    ((VaultState.process_parsed_batch externals shard 7 (with_last calm (sink "down")) dbs events).1
      ≡ err (sink "down"))
    × ((VaultState.process_parsed_batch externals shard 7
          (with_last calm (sink "down"))
          dbs
          events).0.legacy
        ≡ dbs.legacy)
    × KgBalanced vault
        (entries_of externals String shard events)
        dbs.kg
        (VaultState.process_parsed_batch externals shard 7
          (with_last calm (sink "down"))
          dbs
          events).0.kg
    × Balanced vault (entries_of externals String shard events) (find dbs.legacy.vaults vault) (
        find
          (VaultState.process_parsed_batch externals shard 8 calm
            (VaultState.process_parsed_batch externals shard 7
              (with_last calm (sink "down"))
              dbs
              events).0
            events).0.legacy.vaults
          vault)
    × KgBalanced vault
        (entries_of externals String shard events)
        (VaultState.process_parsed_batch externals shard 7
          (with_last calm (sink "down"))
          dbs
          events).0.kg
        (VaultState.process_parsed_batch externals shard 8 calm
          (VaultState.process_parsed_batch externals shard 7
            (with_last calm (sink "down"))
            dbs
            events).0
          events).0.kg
process_parsed_batch-replayed_example =
    process_parsed_batch-replayed externals shard 7 8 calm calm (sink "down") dbs events vault
      succeeds again

counted : (Holders.process_parsed_batch externals calm dbs events).1 ≡ ok tt
unfolding Holders.process_parsed_batch
counted = refl

process_parsed_batch-BothPositive_example :
    BothPositive
      (Holders.process_parsed_batch externals calm dbs events).0.legacy
      (Holders.process_parsed_batch externals calm dbs events).0.kg
process_parsed_batch-BothPositive_example =
    process_parsed_batch-BothPositive externals calm dbs events (refl, (tt, (refl, tt)))
      (record { legacy_rows = tt; kg_rows = tt })

-- The vault has a row, with a wrong count, and two accounts that hold its shares beside one that does not.
abbrev counted_wrong : Vault ℕ
counted_wrong = record {
  total_shares = pos 5;
  current_share_price = pos 1;
  total_assets = pos 5;
  total_deposits = pos 5;
  total_redemptions = pos 0;
  market_cap = pos 5;
  holder_count = 99;
  updated_at = 0;
}

abbrev holding : ℕ → Position
holding n = record { shares = pos n; total_deposits = pos n; total_redemptions = pos 0 }

abbrev crowd : Positions
crowd = ((vault, "0xa"), holding 3) ∷ ((vault, "0xb"), holding 2) ∷ ((vault, "0xc"), holding 0) ∷ []

abbrev holders_of : Option (Vault ℕ) → Option ℕ
holders_of none = none
holders_of (some v) = some v.holder_count

abbrev crowded : Databases json
crowded = record {
  legacy = record { vaults = (vault, counted_wrong) ∷ []; history = []; positions = crowd };
  kg = some (record { vaults = (vault, counted_wrong) ∷ []; events = []; positions = crowd });
  dead_letters = [];
}

counted_crowd : (Holders.process_parsed_batch externals calm crowded events).1 ≡ ok tt
unfolding Holders.process_parsed_batch
counted_crowd = refl

corrected :
    holders_of
      (find (Holders.process_parsed_batch externals calm crowded events).0.legacy.vaults vault)
    ≡ some 3
unfolding Holders.process_parsed_batch find update count_if upsert delete_if ◌+ℤ◌
corrected = refl

process_parsed_batch-BothCount_example :
    BothCount vault
      (Holders.process_parsed_batch externals calm crowded events).0.legacy
      (Holders.process_parsed_batch externals calm crowded events).0.kg
process_parsed_batch-BothCount_example =
    process_parsed_batch-BothCount externals calm crowded events
      (typed (metadata 1) deposited (payload_of deposited)) vault (inl refl) refl counted_crowd

abbrev deposits_in : Databases json → ℤ × ℤ
deposits_in d = (
  deposits_of (find d.legacy.vaults vault),
  elim d.kg [ none ↦ pos 0 | some kg ↦ deposits_of (find kg.vaults vault) ],
)

-- `kg` ends with twice the net deposits of the batch.
twice :
    deposits_in
      (VaultState.process_parsed_batch externals shard 8 calm
        (VaultState.process_parsed_batch externals shard 7
          (with_last calm (sink "down"))
          dbs
          events).0
        events).0
    ≡ (pos 9, pos 18)
unfolding VaultState.process_parsed_batch find update upsert ◌+ℤ◌ ◌-ℤ◌
twice = refl
