-- ===== src/Extractor.antt =====
-- src/extractor.rs: the extractors. Here is that of tuples, which polls the futures of its parts
-- together; the values of the parts, of whatever types, are of one type here, and so are their
-- errors. The other extractors are in Extractor/Payload.
pub mod Alive
pub mod Outcome
pub mod Parts
pub mod Payload
pub mod Sharing
pub mod Tuple
mod Tests
use actix_web.Prelude.{ℕ, Bool, true, false, ◌&&◌, Option, none, some, List, [], ◌∷◌, map}
use actix_web.Http.{ServiceRequest}
use actix_web.Futures.{Poll, Fut, ready, not_ready, error, panicked, poll_fut}

-- One part of a `TupleFromRequest`: its place in `items` and its future in `futs`.
pub record Slot (V E : Type 0) : Type 0 where
  pub item : Option V
  pub fut : Fut V E

-- What a round over the parts has found: whether all are ready, an error, or a panic.
pub data Round (F : Type 0) : Type 0 where
  went : Bool → Round F
  failed : F → Round F
  panic : Round F

abbrev pub and_ready : {F : Type 0} → Bool → Round F → Round F
and_ready b (went c) = went (b && c)
and_ready b (failed e) = failed e
and_ready b panic = panic

-- The tuple of these futures.
abbrev pub tuple : {V E : Type 0} → List (Fut V E) → List (Slot V E)
tuple futs = map (λ f. record { item = none; fut = f }) futs

-- `FromRequest::from_request` of a tuple, of those of its parts: the request goes from one to the
-- next, so that the payload is there for the first that takes it.
abbrev pub tuple_from_request :
    {P V E : Type 0}
    → List (ServiceRequest P → Fut V E × ServiceRequest P)
    → ServiceRequest P
    → List (Slot V E) × ServiceRequest P
tuple_from_request [] req = ([], req)
tuple_from_request (from_request ∷ parts) req =
    let (fut, req') = from_request req in
    let (slots, req'') = tuple_from_request parts req' in
    (record { item = none; fut = fut } ∷ slots, req'')

module _ {V E F : Type 0} (into : E → F) where
  abbrev pub filled : Poll V E × Fut V E → Round F × Slot V E
  filled (ready v, fut) = (went true, record { item = some v; fut = fut })
  filled (not_ready, fut) = (went false, record { item = none; fut = fut })
  filled (error e, fut) = (failed (into e), record { item = none; fut = fut })
  filled (panicked, fut) = (panic, record { item = none; fut = fut })

  abbrev pub poll_part : Option V → Fut V E → Round F × Slot V E
  poll_part (some v) fut = (went true, record { item = some v; fut = fut })
  poll_part none fut = filled (poll_fut fut)

  -- `if self.items.$n.is_none() { .. }`
  unfoldable pub poll_slot : Slot V E → Round F × Slot V E
  poll_slot s = poll_part s.item s.fut

  -- One part after the other; an error returns at once.
  abbrev pub join_slot :
      Round F × Slot V E → List (Slot V E) → Round F × List (Slot V E) → Round F × List (Slot V E)
  join_slot (went b, s) slots (rest, slots') = (and_ready b rest, s ∷ slots')
  join_slot (failed e, s) slots rest = (failed e, s ∷ slots)
  join_slot (panic, s) slots rest = (panic, s ∷ slots)

  unfoldable pub poll_slots : List (Slot V E) → Round F × List (Slot V E)
  poll_slots [] = (went true, [])
  poll_slots (s ∷ slots) = join_slot (poll_slot s) slots (poll_slots slots)

-- `($(self.items.$n.take().unwrap(),)+)`; `none` is a panic.
abbrev pub put : {V : Type 0} → Option V → Option (List V) → Option (List V)
put (some v) (some vs) = some (v ∷ vs)
put (some v) none = none
put none vs = none

unfoldable pub take_items : {V E : Type 0} → List (Slot V E) → Option (List V)
take_items [] = some []
take_items (s ∷ slots) = put s.item (take_items slots)

abbrev pub emptied : {V E : Type 0} → List (Slot V E) → List (Slot V E)
emptied [] = []
emptied (s ∷ slots) = record s { item = none } ∷ emptied slots

module _ {V E F : Type 0} where
  abbrev pub finish : List (Slot V E) → Option (List V) → Poll (List V) F × List (Slot V E)
  finish slots none = (panicked, slots)
  finish slots (some vs) = (ready vs, emptied slots)

  abbrev pub after_slots : Round F × List (Slot V E) → Poll (List V) F × List (Slot V E)
  after_slots (went true, slots) = finish slots (take_items slots)
  after_slots (went false, slots) = (not_ready, slots)
  after_slots (failed e, slots) = (error e, slots)
  after_slots (panic, slots) = (panicked, slots)

  -- `Future::poll` of `TupleFromRequest`.
  unfoldable pub poll : (E → F) → List (Slot V E) → Poll (List V) F × List (Slot V E)
  poll into slots = after_slots (poll_slots into slots)
