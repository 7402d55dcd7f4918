-- ===== src/Framed/App/Loop.antt =====
-- The loop over the services of a framed application (src/framed_app.rs): it is that of a tuple
-- (src/extractor.rs), with a path beside each part.
use mathlib.Core.Path.{ap₂}
use actix_web.Prelude.{
  ℕ, zero, suc, String, true, false, Option, none, some, List, [], ◌∷◌, ◌≡◌, refl, ap, ◌∙◌, ok, err,
}
use actix_web.Futures.{Poll, Fut, ready, not_ready, error, panicked, later, now, spent}
use actix_web.Futures.Drive.{drive, react}
use actix_web.Resource.{Sweep, swept, failed, panic}
use actix_web.Extractor as Extractor
use actix_web.Extractor.{
  Slot, Round, went, poll_part, join_slot, poll_slots, poll_slot, put, take_items, finish,
  after_slots, tuple, poll,
}
use actix_web.Framed.App.{
  Service, FramedAppService, CreateServiceItem, future, service, CreateService, poll_framed_item,
  join_framed, poll_framed_items, put_service, drain_framed, finish_framed, after_framed,
  poll_framed,
}

abbrev pub zip : {V : Type 0} → List String → List V → List (String × V)
zip [] vs = []
zip (path ∷ paths) [] = []
zip (path ∷ paths) (v ∷ vs) = (path, v) ∷ zip paths vs

abbrev named : {V : Type 0} → List String → Option (List V) → Option (List (String × V))
named paths none = none
named paths (some vs) = some (zip paths vs)

abbrev pub same : Unit {0} → Unit {0}
same e = e

abbrev sweep_of : Round (Unit {0}) → Sweep
sweep_of (went b) = swept b
sweep_of (Extractor.failed e) = failed
sweep_of Extractor.panic = panic

-- As many paths as parts.
abbrev pub Aligned : {V E : Type 0} → List String → List (Slot V E) → Type 0
Aligned [] [] = Unit
Aligned [] (s ∷ slots) = ⊥
Aligned (path ∷ paths) [] = ⊥
Aligned (path ∷ paths) (s ∷ slots) = Aligned paths slots

-- The part of a tuple that a service is.
abbrev pub Part : Type 0 → Type 0 → Type 0
Part S F = Slot (Service S F) (Unit {0})

module _ {S F : Type 0} where
  abbrev item_by :
      String → Option (Service S F) → Fut (Service S F) (Unit {0}) → CreateServiceItem S F
  item_by path none fut = future (some path) fut
  item_by path (some s) fut = service path s

  abbrev pub items_of : List String → List (Part S F) → List (CreateServiceItem S F)
  items_of [] slots = []
  items_of (path ∷ paths) [] = []
  items_of (path ∷ paths) (s ∷ slots) = item_by path s.item s.fut ∷ items_of paths slots

  poll_item-part :
      (path : String) (item : Option (Service S F)) (fut : Fut (Service S F) (Unit {0}))
      → poll_framed_item (item_by path item fut) ≡ (
        sweep_of (poll_part same item fut).0,
        item_by path (poll_part same item fut).1.item (poll_part same item fut).1.fut,
      )
  poll_item-part path (some s) fut = refl
  poll_item-part path none (later fut) = refl
  poll_item-part path none (now (ok s)) = refl
  poll_item-part path none (now (err e)) = refl
  poll_item-part path none spent = refl

  join-items :
      (path : String) (paths : List String) (slots : List (Part S F))
      (p : Round (Unit {0}) × Part S F) (rest : Round (Unit {0}) × List (Part S F))
      → join_framed
          (sweep_of p.0, item_by path p.1.item p.1.fut)
          (items_of paths slots)
          (sweep_of rest.0, items_of paths rest.1)
        ≡ (
          sweep_of (join_slot same p slots rest).0,
          items_of (path ∷ paths) (join_slot same p slots rest).1,
        )
  join-items path paths slots (went b, s) (went c, slots') = refl
  join-items path paths slots (went b, s) (Extractor.failed e, slots') = refl
  join-items path paths slots (went b, s) (Extractor.panic, slots') = refl
  join-items path paths slots (Extractor.failed e, s) rest = refl
  join-items path paths slots (Extractor.panic, s) rest = refl

  join-Aligned :
      (path : String) (paths : List String) (slots : List (Part S F))
      (p : Round (Unit {0}) × Part S F) (rest : Round (Unit {0}) × List (Part S F))
      → Aligned paths slots
      → Aligned paths rest.1
      → Aligned (path ∷ paths) (join_slot same p slots rest).1
  join-Aligned path paths slots (went b, s) rest h k = k
  join-Aligned path paths slots (Extractor.failed e, s) rest h k = h
  join-Aligned path paths slots (Extractor.panic, s) rest h k = h

  poll_slots-Aligned :
      (paths : List String) (slots : List (Part S F))
      → Aligned paths slots
      → Aligned paths (poll_slots same slots).1
  unfolding poll_slots
  poll_slots-Aligned [] [] h = tt
  poll_slots-Aligned [] (s ∷ slots) h = absurd h
  poll_slots-Aligned (path ∷ paths) [] h = absurd h
  poll_slots-Aligned (path ∷ paths) (s ∷ slots) h =
      join-Aligned path paths slots (poll_slot same s) (poll_slots same slots) h
        (poll_slots-Aligned paths slots h)

  poll_items-slots :
      (paths : List String) (slots : List (Part S F))
      → Aligned paths slots
      → poll_framed_items (items_of paths slots)
        ≡ (sweep_of (poll_slots same slots).0, items_of paths (poll_slots same slots).1)
  unfolding poll_framed_items poll_slots poll_slot
  poll_items-slots [] [] h = refl
  poll_items-slots [] (s ∷ slots) h = absurd h
  poll_items-slots (path ∷ paths) [] h = absurd h
  poll_items-slots (path ∷ paths) (s ∷ slots) h =
      ap₂ (λ p q. join_framed p (items_of paths slots) q) (poll_item-part path s.item s.fut)
        (poll_items-slots paths slots h)
      ∙ join-items path paths slots (poll_part same s.item s.fut) (poll_slots same slots)

  put-named :
      (path : String) (paths : List String) (item : Option (Service S F))
      (fut : Fut (Service S F) (Unit {0})) (items : List (CreateServiceItem S F))
      (vs : Option (List (Service S F)))
      → drain_framed items ≡ named paths vs
      → drain_framed (item_by path item fut ∷ items) ≡ named (path ∷ paths) (put item vs)
  unfolding drain_framed
  put-named path paths none fut items vs h = refl
  put-named path paths (some v) fut items none h = ap (put_service (path, v)) h
  put-named path paths (some v) fut items (some vs) h = ap (put_service (path, v)) h

  drain-named :
      (paths : List String) (slots : List (Part S F))
      → Aligned paths slots
      → drain_framed (items_of paths slots) ≡ named paths (take_items slots)
  unfolding drain_framed take_items
  drain-named [] [] h = refl
  drain-named [] (s ∷ slots) h = absurd h
  drain-named (path ∷ paths) [] h = absurd h
  drain-named (path ∷ paths) (s ∷ slots) h =
      put-named path paths s.item s.fut (items_of paths slots) (take_items slots)
        (drain-named paths slots h)

  -- The application of these services.
  abbrev pub result_of :
      S
      → List String
      → Poll (List (Service S F)) (Unit {0})
      → Poll (FramedAppService S F) (Unit {0})
  result_of state paths (ready vs) = ready (record { router = zip paths vs; state = state })
  result_of state paths not_ready = not_ready
  result_of state paths (error e) = error e
  result_of state paths panicked = panicked

  abbrev pub creating : S → List String → List (Part S F) → CreateService S F
  creating state paths slots = record { fut = items_of paths slots; state = state }

  finish-result :
      (n : ℕ) (state : S) (paths : List String) (slots : List (Part S F))
      (items : List (CreateServiceItem S F)) (vs : Option (List (Service S F)))
      → react (finish_framed state items (named paths vs)) (drive poll_framed n)
        ≡ result_of state paths (react (finish slots vs) (drive (poll same) n))
  finish-result n state paths slots items none = refl
  finish-result n state paths slots items (some vs) = refl

  after-result :
      (n : ℕ) (state : S) (paths : List String) (q : Round (Unit {0}) × List (Part S F))
      → Aligned paths q.1
      → ((slots : List (Part S F))
          → Aligned paths slots
          → drive poll_framed n (creating state paths slots)
            ≡ result_of state paths (drive (poll same) n slots))
      → react (after_framed state (sweep_of q.0, items_of paths q.1)) (drive poll_framed n)
        ≡ result_of state paths (react (after_slots q) (drive (poll same) n))
  after-result n state paths (went true, slots) h again =
      ap (λ o. react (finish_framed state (items_of paths slots) o) (drive poll_framed n))
        (drain-named paths slots h)
      ∙ finish-result n state paths slots (items_of paths slots) (take_items slots)
  after-result n state paths (went false, slots) h again = again slots h
  after-result n state paths (Extractor.failed e, slots) h again = refl
  after-result n state paths (Extractor.panic, slots) h again = refl

  -- The creation is the extraction of a tuple.
  pub drive-slots :
      (n : ℕ) (state : S) (paths : List String) (slots : List (Part S F))
      → Aligned paths slots
      → drive poll_framed n (creating state paths slots)
        ≡ result_of state paths (drive (poll same) n slots)
  unfolding drive poll_framed poll
  drive-slots zero state paths slots h = refl
  drive-slots (suc n) state paths slots h =
      ap (λ q. react (after_framed state q) (drive poll_framed n)) (poll_items-slots paths slots h)
      ∙ after-result n state paths (poll_slots same slots) (poll_slots-Aligned paths slots h)
          (λ slots' k. drive-slots n state paths slots' k)
