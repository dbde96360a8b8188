-- ===== src/Workers/Cycle.antt =====
-- What the poll loops of crates/projections/src/worker/pg.rs and surreal.rs share: their configuration,
-- what a pass through the loop meets and does, and the parse-once step.
use intuition_core.Base.{
  In, inl, inr, ap, ℕ, ◌≡◌, refl, Bool, Option, none, some, List, [], ◌∷◌, ◌++◌, map, Result, ok,
  err, last, if◌then◌else◌,
}
use intuition_core.Events.{Serde, StoredEvent}
use intuition_core.Events.Parsing.{ParsedEvent, ParseError, parse_or_unknown}
use intuition_core.Resilience.Retry.{Attempt, Effect}

pub record WorkerConfig : Type 0 where
  pub batch_size : ℕ
  pub poll_interval_ms : ℕ

-- What a pass through the loop does to the outside, in order.
pub data Act : Type 0 where
  counts_error counts_parse_error counts_batch beats crashes : Act
  status sleeps : ℕ → Act
  retries : List Effect → Act

-- What a pass meets: the events that have arrived since the last one, whether the checkpoint or the
-- batch cannot be read or the checkpoint not be written, and the attempts of the retry loop.
pub record Circumstances (J : Serde) (X : Type 0) : Type 0 where
  pub arrived : List (StoredEvent J)
  pub checkpoint_unreadable : Bool
  pub batch_unreadable : Bool
  pub save_fails : Bool
  pub attempts : ℕ → Attempt X

-- The events that arrive over several passes.
abbrev pub arrivals : {J : Serde} {X : Type 0} → List (Circumstances J X) → List (StoredEvent J)
arrivals [] = []
arrivals (env ∷ envs) = env.arrived ++ arrivals envs

abbrev pub beats_if : Bool → List Act → List Act
beats_if heartbeat rest = if heartbeat then beats ∷ rest else rest

-- The checkpoint or the batch cannot be read.
abbrev pub unreadable : Bool → WorkerConfig → List Act
unreadable heartbeat config =
    counts_error ∷ status 3 ∷ beats_if heartbeat (sleeps config.poll_interval_ms ∷ [])

-- The batch is empty.
abbrev pub idle : Bool → WorkerConfig → List Act
idle heartbeat config = status 2 ∷ beats_if heartbeat (sleeps config.poll_interval_ms ∷ [])

module _ {J : Serde} where
  abbrev pub parsed : StoredEvent J → ParsedEvent J
  parsed e = (parse_or_unknown e).0

  abbrev pub counts : Option (ParseError J) → List Act
  counts none = []
  counts (some e) = counts_parse_error ∷ []

  unfoldable pub parse_batch_once : List (StoredEvent J) → List (ParsedEvent J) × List Act
  parse_batch_once [] = ([], [])
  parse_batch_once (event ∷ batch) =
      let (p, maybe_err) = parse_or_unknown event in
      let (ps, acts) = parse_batch_once batch in (p ∷ ps, counts maybe_err ++ acts)

  pub parse_batch_once-map :
      (batch : List (StoredEvent J)) → (parse_batch_once batch).0 ≡ map parsed batch
  unfolding parse_batch_once
  parse_batch_once-map [] = refl
  parse_batch_once-map (event ∷ batch) = rw (parse_batch_once-map batch) refl

  unfoldable pub resolve_checkpoint_target : List (StoredEvent J) → Result (Unit {0}) (ℕ × ℕ)
  resolve_checkpoint_target batch = elim (last batch) [
    | none ↦ err tt
    | some l ↦ ok (l.sequence_number, l.block_number)
  ]

  -- Every event that is read is parsed and kept.
  pub In-map-parsed :
      (e : StoredEvent J) (batch : List (StoredEvent J))
      → In e batch
      → In (parsed e) (map parsed batch)
  In-map-parsed e [] m = absurd m
  In-map-parsed e (x ∷ batch) (inl q) = inl (ap parsed q)
  In-map-parsed e (x ∷ batch) (inr m) = inr (In-map-parsed e batch m)
