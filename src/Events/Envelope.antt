-- ===== src/Events/Envelope.antt =====
-- What survives the parsing of crates/shared/src/parsed_event.rs.
use Prim.Native.String.{String}
use intuition_core.Base.{
  ◌≡◌, ◌≢◌, refl, sym, ◌↔◌, inl, inr, Option, none, some, Result, ok, err, same_text, same_text_iff,
  Result-cases, ap, subst, Bool-cases, if◌then◌else◌,
}
use intuition_core.Events.{
  EventType, atom_created, atom_context_registered, triple_created, deposited, redeemed,
  share_price_changed, protocol_fee_accrued, as_str, from_str, UnknownEventType, Payload, Serde,
  StoredEvent,
}
use intuition_core.Events.Parsing.{
  ParsedEvent, typed, unknown, ParseError, from_event, parse, parse_or_unknown, event_type,
  sequence_number, as_stored_event, stored_event_from_parts,
}

-- One test of the chain.
pick :
    (s n : String) (a t : EventType) (rest : Result UnknownEventType EventType)
    → as_str a ≡ n
    → (rest ≡ ok t → as_str t ≡ s)
    → (if same_text s n then ok a else rest) ≡ ok t
    → as_str t ≡ s
pick s n a t rest q f h = elim (Bool-cases (same_text s n)) [
  | inl y ↦
      let m : s ≡ n = (same_text_iff s n).0 y in
      let k : ◌≡◌ {A = Result UnknownEventType EventType} (ok a) (ok t) = rw y at h in cc
  | inr o ↦ f (rw o at h)
]

as_str-from_str : (s : String) (t : EventType) → from_str s ≡ ok t → as_str t ≡ s
unfolding from_str as_str
as_str-from_str s t = pick s _ atom_created t _ refl (
    pick s _ atom_context_registered t _ refl (
      pick s _ triple_created t _ refl (
        pick s _ deposited t _ refl (
          pick s _ redeemed t _ refl (
            pick s _ share_price_changed t _ refl
              (pick s _ protocol_fee_accrued t _ refl (λ e. cc)))))))

pub from_str_names : (t : EventType) → from_str (as_str t) ≡ ok t
unfolding from_str as_str
from_str_names atom_created = refl
from_str_names atom_context_registered = refl
from_str_names triple_created = refl
from_str_names deposited = refl
from_str_names redeemed = refl
from_str_names share_price_changed = refl
from_str_names protocol_fee_accrued = refl

-- A text is read as a kind of event exactly when it is that kind's canonical name.
pub from_str-as_str : (s : String) (t : EventType) → (from_str s ≡ ok t) ↔ (as_str t ≡ s)
from_str-as_str s t =
    (as_str-from_str s t, λ q. subst (λ (x : String). from_str x ≡ ok t) q (from_str_names t))

module _ {J : Serde} where
  -- What parsing with a fall-back is: the typed event of its kind; or the event itself, kept raw, with
  -- no error where the kind is not known, and with one where the kind is known and the payload is not
  -- a record of that kind.
  pub data Parsed (e : StoredEvent J) : ParsedEvent J × Option (ParseError J) → Type 0 where
    as_record :
        (t : EventType) (d : Payload J.Decimal t)
        → as_str t ≡ e.event_type
        → J.from_value t e.event_data ≡ ok d
        → Parsed e (typed (from_event e) t d, none)
    as_other : ((t : EventType) → as_str t ≢ e.event_type) → Parsed e (unknown e, none)
    as_malformed :
        (t : EventType) (f : J.Failure) (p : ParseError J)
        → as_str t ≡ e.event_type
        → J.from_value t e.event_data ≡ err f
        → p ≡ record { event_type = e.event_type; source = f }
        → Parsed e (unknown e, some p)

  kind_known :
      (e : StoredEvent J) (t : EventType)
      → from_str e.event_type ≡ ok t
      → Parsed e (parse_or_unknown e)
  unfolding parse_or_unknown parse
  kind_known e t q =
      let named = (from_str-as_str e.event_type t).0 q in
      elim (Result-cases (J.from_value t e.event_data)) [
        | inl (d, r) ↦ rw (q, r) (as_record t d named r)
        | inr (f, r) ↦
            rw (q, r)
              (as_malformed t f _ named r (ap (λ n. record { event_type = n; source = f }) named))
      ]

  -- Every event parses in one of three ways: into the record of its kind; kept raw without an error,
  -- where its kind is not known; kept raw with an error that names the kind, where its kind is known
  -- and its data is not a record of that kind.
  pub parse_or_unknown-Parsed : (e : StoredEvent J) → Parsed e (parse_or_unknown e)
  unfolding parse_or_unknown parse
  parse_or_unknown-Parsed e = elim (Result-cases (from_str e.event_type)) [
    | inl (t, q) ↦ kind_known e t q
    | inr (u, q) ↦ rw q (as_other (λ t n. let m = (from_str-as_str e.event_type t).1 n in cc))
  ]

  -- What comes back of an event: the event itself where it was kept raw; where it was read, the event with
  -- the JSON form of its record for its data.
  abbrev pub GivesBack : StoredEvent J → ParsedEvent J → StoredEvent J → Type 0
  GivesBack e (typed metadata t d) s =
      (record s { event_data = e.event_data } ≡ e) × (J.to_value t d ≡ ok s.event_data)
  GivesBack e (unknown raw) s = s ≡ e

  keeps :
      (e : StoredEvent J) (r : ParsedEvent J × Option (ParseError J))
      → Parsed e r
      → (sequence_number r.0 ≡ e.sequence_number)
        × (event_type r.0 ≡ e.event_type)
        × ((s : StoredEvent J) → as_stored_event r.0 ≡ ok s → GivesBack e r.0 s)
  unfolding sequence_number event_type as_stored_event from_event stored_event_from_parts
  keeps e _ (as_record t d n r) = (
    refl,
    refl,
    λ s h. elim (Result-cases (J.to_value t d)) [
      | inl (v, q) ↦
          let back : ◌≡◌ {A = Result J.Failure (StoredEvent J)}
              (ok (stored_event_from_parts (from_event e) v)) (ok s) =
            rw q at h in
          let m : stored_event_from_parts (from_event e) v ≡ s = cc in
          subst (λ (x : StoredEvent J). GivesBack e (typed (from_event e) t d) x) m (refl, q)
      | inr (f, q) ↦
          (let none : ◌≡◌ {A = Result J.Failure (StoredEvent J)} (err f) (ok s) = rw q at h in cc)
    ],
  )
  keeps e _ (as_other n) = (refl, refl, λ s h. let m : e ≡ s = cc h in sym m)
  keeps e _ (as_malformed t f p n r q) = (refl, refl, λ s h. let m : e ≡ s = cc h in sym m)

  -- Parsing with a fall-back never drops or renames an event: the result carries the event's sequence
  -- number and its kind, and where it can be turned back into a stored event, that is the event again:
  -- in every field where it was kept raw, and else in every field but `event_data`, which is the JSON form
  -- of the record.
  pub parse_or_unknown-keeps :
      (e : StoredEvent J)
      → (sequence_number (parse_or_unknown e).0 ≡ e.sequence_number)
        × (event_type (parse_or_unknown e).0 ≡ e.event_type)
        × ((s : StoredEvent J)
            → as_stored_event (parse_or_unknown e).0 ≡ ok s
            → GivesBack e (parse_or_unknown e).0 s)
  unfolding sequence_number event_type as_stored_event from_event
  parse_or_unknown-keeps e = keeps e _ (parse_or_unknown-Parsed e)
