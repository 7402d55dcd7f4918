-- ===== src/Extractor/Alive.antt =====
-- The invariant of the extraction of a tuple (src/extractor.rs): no future is polled once it is
-- done.
use mathlib.Core.Path.{subst}
use actix_web.Prelude.{refl, sym, ap, true, false, Option, none, some, List, [], ◌∷◌, ◌≡◌, ok, err}
use actix_web.Futures.{Poll, Fut, later, now, spent, ready, not_ready, error, panicked, poll_fut}
use actix_web.Extractor.{
  Slot, Round, went, failed, panic, poll_part, poll_slot, filled, join_slot, poll_slots, put,
  take_items, finish, after_slots, poll,
}

abbrev HasItem : {V : Type 0} → Option V → Type 0
HasItem (some v) = Unit
HasItem none = ⊥

module _ {V E : Type 0} where
  -- The future has not been polled since it was done.
  abbrev pub AliveFut : Fut V E → Type 0
  AliveFut (later f) = AliveFut f
  AliveFut (now r) = Unit
  AliveFut spent = ⊥

  -- The part has its item, or its future is still to be polled.
  abbrev pub AlivePart : Option V → Fut V E → Type 0
  AlivePart (some v) f = Unit
  AlivePart none f = AliveFut f

  abbrev pub Alive : List (Slot V E) → Type 0
  Alive [] = Unit
  Alive (s ∷ slots) = AlivePart s.item s.fut × Alive slots

  abbrev HasAll : List (Slot V E) → Type 0
  HasAll [] = Unit
  HasAll (s ∷ slots) = HasItem s.item × HasAll slots

put-some :
    {V : Type 0} (item : Option V) (o : Option (List V)) (vs : List V)
    → HasItem item
    → o ≡ some vs
    → (ws : List V) × (put item o ≡ some ws)
put-some (some v) o vs h e = (v ∷ vs, ap (put (some v)) e)
put-some none o vs h e = absurd h

module _ {V E : Type 0} where
  HasItem-AlivePart : (item : Option V) (f : Fut V E) → HasItem item → AlivePart item f
  HasItem-AlivePart (some v) f h = tt
  HasItem-AlivePart none f h = absurd h

  HasAll-Alive : (slots : List (Slot V E)) → HasAll slots → Alive slots
  HasAll-Alive [] h = tt
  HasAll-Alive (s ∷ slots) (h, k) = (HasItem-AlivePart s.item s.fut h, HasAll-Alive slots k)

  HasAll-take_items :
      (slots : List (Slot V E)) → HasAll slots → (vs : List V) × (take_items slots ≡ some vs)
  unfolding take_items
  HasAll-take_items [] h = ([], refl)
  HasAll-take_items (s ∷ slots) (h, k) =
      let rest = HasAll-take_items slots k in put-some s.item (take_items slots) rest.0 h rest.1

module _ {V E F : Type 0} where
  -- What a poll of one part leaves, and of all.
  abbrev LeftPart : Round F × Slot V E → Type 0
  LeftPart (went true, s) = HasItem s.item
  LeftPart (went false, s) = AlivePart s.item s.fut
  LeftPart (failed e, s) = Unit
  LeftPart (panic, s) = ⊥

  abbrev Left : Round F × List (Slot V E) → Type 0
  Left (went true, slots) = HasAll slots
  Left (went false, slots) = Alive slots
  Left (failed e, slots) = Unit
  Left (panic, slots) = ⊥

  -- A poll that does not panic, and leaves the invariant where it is not the last.
  abbrev pub Kept : Poll (List V) F × List (Slot V E) → Type 0
  Kept (ready vs, slots) = Unit
  Kept (not_ready, slots) = Alive slots
  Kept (error e, slots) = Unit
  Kept (panicked, slots) = ⊥

  filled-LeftPart : (into : E → F) (f : Fut V E) → AliveFut f → LeftPart (filled into (poll_fut f))
  filled-LeftPart into (later f) h = h
  filled-LeftPart into (now (ok v)) h = tt
  filled-LeftPart into (now (err e)) h = tt
  filled-LeftPart into spent h = absurd h

  poll_part-LeftPart :
      (into : E → F) (item : Option V) (f : Fut V E)
      → AlivePart item f
      → LeftPart (poll_part into item f)
  poll_part-LeftPart into (some v) f h = tt
  poll_part-LeftPart into none f h = filled-LeftPart into f h

  join_slot-Left :
      (into : E → F) (p : Round F × Slot V E) (slots : List (Slot V E))
      (q : Round F × List (Slot V E))
      → LeftPart p
      → Left q
      → Left (join_slot into p slots q)
  join_slot-Left into (went true, s) slots (went true, rest) h k = (h, k)
  join_slot-Left into (went true, s) slots (went false, rest) h k =
      (HasItem-AlivePart s.item s.fut h, k)
  join_slot-Left into (went false, s) slots (went true, rest) h k = (h, HasAll-Alive rest k)
  join_slot-Left into (went false, s) slots (went false, rest) h k = (h, k)
  join_slot-Left into (went b, s) slots (failed e, rest) h k = tt
  join_slot-Left into (went b, s) slots (panic, rest) h k = absurd k
  join_slot-Left into (failed e, s) slots q h k = tt
  join_slot-Left into (panic, s) slots q h k = absurd h

  poll_slots-Left :
      (into : E → F) (slots : List (Slot V E)) → Alive slots → Left (poll_slots into slots)
  unfolding poll_slots poll_slot
  poll_slots-Left into [] h = tt
  poll_slots-Left into (s ∷ slots) (h, k) =
      join_slot-Left into (poll_slot into s) slots (poll_slots into slots)
        (poll_part-LeftPart into s.item s.fut h) (poll_slots-Left into slots k)

  after_slots-Kept : (q : Round F × List (Slot V E)) → Left q → Kept (after_slots q)
  after_slots-Kept (went true, slots) h =
      let taken = HasAll-take_items slots h in
      subst (λ o. Kept (finish {F = F} slots o)) (sym taken.1) tt
  after_slots-Kept (went false, slots) h = h
  after_slots-Kept (failed e, slots) h = tt
  after_slots-Kept (panic, slots) h = absurd h

-- The invariant that each part has its item or a future that is not done holds of every poll: where
-- it holds, a poll does not panic, so no future is polled after it is done, and it holds again where
-- the extraction goes on.
pub poll-Kept :
    {V E F : Type 0} (into : E → F) (slots : List (Slot V E)) → Alive slots → Kept (poll into slots)
unfolding poll
poll-Kept into slots h = after_slots-Kept (poll_slots into slots) (poll_slots-Left into slots h)
