-- ===== src/Tests/CoreEntities.antt =====
-- An atom whose payload is read, and the same atom as a raw event, written to a sink that remembers its
-- last batch, to `term` and to `kg`.
use Prim.Native.String.{String}
use intuition_core.Base.{
  ℕ, zero, suc, ◌++◌, ◌≡◌, refl, true, false, Option, none, some, List, [], ◌∷◌, ok, err,
  if◌then◌else◌, same_text,
}
use intuition_core.Errors.{database}
use intuition_core.Events.{atom_created, StoredEvent, from_str}
use intuition_core.Events.Parsing.{parse, parse_or_unknown, ParsedEvent, typed, unknown}
use intuition_core.Workers.Sink.{SinkOperation}
use intuition_core.Projections.EntityTables.{Codecs}
use intuition_core.Projections.EntityPlan.{WritePlan, build_write_plan, build_atom_ops_typed, atom}
use intuition_core.Projections.CoreEntities.{
  ProjectionSink, Attempt, works, fails, unanswered, Stores, process_parsed_batch,
}
use intuition_core.Projections.CoreEntities.Written.{calm}
use intuition_core.Projections.CoreEntities.Replay.{retried, process_parsed_batch-retried}
use intuition_core.Projections.CoreEntities.Stages.{Stages, process_parsed_batch-Stages}
use intuition_core.Projections.CoreEntities.Alike.{raw_atom}
use intuition_core.Projections.CoreEntities.Fallback.{process_parsed_batch-AreAlike}
use intuition_core.Workers.CoreEntities.{Meeting, Machine, process_with_retry}
use intuition_core.Resilience.Retry.{returns}
use intuition_core.Workers.EntityLoop.{CoreEntitiesWorker, World, Circumstances}
use intuition_core.Tests.Resilience.Breaker.{config}
use intuition_core.Tests.Resilience.Retry.{policy, show_open, breaker}
use intuition_core.Projections.CoreEntities.Unsunk.{unsunk_done}
use intuition_core.Tests.Events.{json, payload_of}
use intuition_core.Tests.Projections.{metadata, number_eq}

-- Every value has the fields of the atom.
abbrev field : String → Option String
field name =
    if same_text name "creator"
    then some "a"
    else if same_text name "term_id"
    then some "0x01"
    else if same_text name "atom_data"
    then some "d"
    else none

abbrev codecs : Codecs json
codecs = record {
  Bytes = String;
  strip_prefix_0x = λ s. none;
  hex_decode = λ s. some s;
  from_utf8 = λ s. some s;
  contains_nul = λ s. false;
  number_to_string = λ n. "4";
  to_rfc3339 = λ n. "1970";
  get_as_str = λ v name. field name;
  string = λ s. 2;
  bool = λ b. 3;
}

-- It keeps all operations, so that the same batch again makes a difference.
abbrev all_batches : ProjectionSink json
all_batches = record {
  State = List (SinkOperation json);
  apply_batch = λ ops s. s ++ ops;
  broken_off = λ ops s. s;
}

abbrev stores : Stores json all_batches
stores = record {
  surreal = [];
  term = [];
  kg = some (record { accounts = []; nodes = []; predicates = []; triples = []; events = [] });
  dead_letters = [];
}

abbrev read_atom : ParsedEvent json
read_atom = typed (metadata 4) atom_created (payload_of atom_created)

abbrev stored_atom : StoredEvent json
stored_atom = record {
  sequence_number = 4;
  block_number = 100;
  block_timestamp = 1000;
  block_hash = "h";
  transaction_hash = "t";
  log_index = 4;
  event_type = "AtomCreated";
  event_data = 0;
  term_id = none;
  entity_id = none;
  is_canonical = true;
  ingested_at = 1000;
}

-- The sink fails; the commit of `term` fails; the answer to the commit of `kg` is lost.
abbrev no_sink : Attempt String
no_sink = record {
  sink_error = some (database "s");
  term = works;
  kg = works;
  letter_fails = false;
}

abbrev no_term : Attempt String
no_term = record {
  sink_error = none;
  term = fails (database "t");
  kg = works;
  letter_fails = false;
}

abbrev no_answer : Attempt String
no_answer = record {
  sink_error = none;
  term = works;
  kg = unanswered (database "k");
  letter_fails = false;
}

stops : (process_parsed_batch codecs no_term stores (read_atom ∷ [])).1 ≡ err (database "t")
unfolding process_parsed_batch
stops = refl

process_parsed_batch-retried_example :
    unsunk_done (
      process_parsed_batch codecs
        (calm {X = String})
        (retried codecs (no_sink ∷ no_term ∷ no_answer ∷ []) stores (read_atom ∷ []))
        (read_atom ∷ []))
    ≡ unsunk_done (process_parsed_batch codecs calm stores (read_atom ∷ []))
process_parsed_batch-retried_example =
    process_parsed_batch-retried codecs (no_sink ∷ no_term ∷ no_answer ∷ []) stores (read_atom ∷ [])

abbrev plan : WritePlan json
plan = (
  build_atom_ops_typed codecs (metadata 4) (payload_of atom_created),
  atom (metadata 4) (payload_of atom_created) ∷ [],
)

plans : build_write_plan {X = String} codecs (read_atom ∷ []) ≡ ok plan
unfolding build_write_plan
plans = refl

process_parsed_batch-Stages_example :
    Stages codecs plan stores (process_parsed_batch codecs no_answer stores (read_atom ∷ []))
process_parsed_batch-Stages_example =
    process_parsed_batch-Stages codecs no_answer stores read_atom [] plan plans

process_parsed_batch-AreAlike_example :
    process_parsed_batch codecs no_answer stores (read_atom ∷ [])
    ≡ process_parsed_batch codecs no_answer stores (unknown stored_atom ∷ [])
process_parsed_batch-AreAlike_example =
    process_parsed_batch-AreAlike codecs no_answer stores (read_atom ∷ [])
      (unknown stored_atom ∷ [])
      (
        raw_atom (metadata 4) (payload_of atom_created) stored_atom (record {
          envelope = record {
            block_number = refl;
            block_timestamp = refl;
            transaction_hash = refl;
            log_index = refl;
          };
          kind = refl;
          creator = refl;
          term_id = refl;
          atom_data = refl;
        }),
        tt,
      )

-- The first attempt fails at the sink, the second gets no permit, the third works.
abbrev meets : ℕ → Attempt String → Option String → Meeting String
meets k databases permit_error = record {
  surreal_checked_at = k;
  pg_checked_at = k;
  permit_error = permit_error;
  databases = databases;
  surreal_failed_at = k;
  pg_failed_at = k;
  surreal_random = 3;
  pg_random = 4;
  jitter_random = 5;
}

abbrev meeting : ℕ → Meeting String
meeting (suc zero) = meets 1 no_sink none
meeting (suc (suc zero)) = meets 2 calm (some "permit")
meeting k = meets k calm none

abbrev machine : Machine json all_batches
machine = record { stores = stores; surreal_cb = breaker; pg_cb = breaker }

recovers :
    (process_with_retry codecs policy true show_open meeting machine (stored_atom ∷ [])).ending
    ≡ returns (ok tt)
unfolding process_with_retry parse_or_unknown parse from_str
recovers = refl

-- The atom arrives; its pass is the one above. Then the checkpoint cannot be read.
abbrev worker : CoreEntitiesWorker
worker = record {
  config = record { batch_size = 10; poll_interval_ms = 250 };
  heartbeat = true;
  retry_policy = policy;
}

abbrev world : World json all_batches
world = record { event_store = []; checkpoints = []; machine = machine }

abbrev passes_by : List (Circumstances json String)
passes_by =
    record {
      arrived = stored_atom ∷ [];
      checkpoint_unreadable = false;
      batch_unreadable = false;
      save_fails = false;
      meetings = meeting;
    }
    ∷ record {
      arrived = [];
      checkpoint_unreadable = true;
      batch_unreadable = false;
      save_fails = false;
      meetings = meeting;
    }
    ∷ []
