-- ===== src/Extractor/Parts.antt =====
-- The parts of a tuple (src/extractor.rs) between two polls, and what one poll does to them.
use mathlib.Core.Path.{ap₂}
use actix_web.Prelude.{
  ℕ, zero, suc, ◌≤◌, ◌<◌, Bool, true, ◌&&◌, none, some, List, [], ◌∷◌, ◌++◌, map, ◌≡◌, refl, ap,
  ◌∙◌, Result, ok, err, leb, arith,
}
use actix_web.Futures.{Fut, not_ready, spent, after}
use actix_web.Futures.Drive.{drive, react}
use actix_web.Extractor.{
  Slot, went, failed, tuple, poll_slot, join_slot, poll_slots, after_slots, poll,
}

-- The future of a part: after how many polls it gives what.
abbrev pub Part : Type 0 → Type 0 → Type 0
Part V E = ℕ × Result V E

abbrev pub futures : {V E : Type 0} → List (Part V E) → List (Fut V E)
futures parts = map (λ p. after p.0 p.1) parts

module _ {V E : Type 0} where
  -- A part that has been polled `t` times, if it has not failed before.
  abbrev pub at : ℕ → ℕ → Result V E → Slot V E
  at zero wait r = record { item = none; fut = after wait r }
  at (suc t) zero (ok v) = record { item = some v; fut = spent }
  at (suc t) zero (err e) = record { item = none; fut = spent }
  at (suc t) (suc wait) r = at t wait r

  abbrev pub all_at : ℕ → List (Part V E) → List (Slot V E)
  all_at t [] = []
  all_at t ((wait, r) ∷ parts) = at t wait r ∷ all_at t parts

  -- No part takes more than `t` polls.
  abbrev pub all_by : ℕ → List (Part V E) → Bool
  all_by t [] = true
  all_by t ((wait, r) ∷ parts) = leb wait t && all_by t parts

  -- No part fails within `t` polls.
  abbrev pub Quiet : ℕ → List (Part V E) → Type 0
  Quiet t [] = Unit
  Quiet t ((wait, ok v) ∷ parts) = Quiet t parts
  Quiet t ((wait, err e) ∷ parts) = (t ≤ wait) × Quiet t parts

  pub Quiet-le : (t m : ℕ) (parts : List (Part V E)) → t ≤ m → Quiet m parts → Quiet t parts
  Quiet-le t m [] h q = tt
  Quiet-le t m ((wait, ok v) ∷ parts) h q = Quiet-le t m parts h q
  Quiet-le t m ((wait, err e) ∷ parts) h (p, q) = (omega arith, Quiet-le t m parts h q)

  pub Quiet-append :
      (t : ℕ) (before after : List (Part V E))
      → Quiet t before
      → Quiet t after
      → Quiet t (before ++ after)
  Quiet-append t [] after p q = q
  Quiet-append t ((wait, ok v) ∷ before) after p q = Quiet-append t before after p q
  Quiet-append t ((wait, err e) ∷ before) after (h, p) q = (h, Quiet-append t before after p q)

  pub tuple_at : (parts : List (Part V E)) → tuple (futures parts) ≡ all_at zero parts
  tuple_at [] = refl
  tuple_at ((wait, r) ∷ parts) =
      ap (λ s. record { item = none; fut = after wait r } ∷ s) (tuple_at parts)

module _ {V E F : Type 0} (into : E → F) where
  poll_slot-ok :
      (t wait : ℕ) (v : V)
      → poll_slot into (at t wait (ok v)) ≡ (went (leb wait t), at (suc t) wait (ok v))
  unfolding poll_slot
  poll_slot-ok zero zero v = refl
  poll_slot-ok zero (suc wait) v = ground arith
  poll_slot-ok (suc t) zero v = ground arith
  poll_slot-ok (suc t) (suc wait) v = ground (arith, poll_slot-ok t wait v)

  poll_slot-early :
      (t wait : ℕ) (e : E)
      → t < wait
      → poll_slot into (at {V = V} t wait (err e)) ≡ (went (leb wait t), at (suc t) wait (err e))
  unfolding poll_slot
  poll_slot-early t zero e h = absurd (omega arith)
  poll_slot-early zero (suc wait) e h = ground arith
  poll_slot-early (suc t) (suc wait) e h = ground (arith, poll_slot-early t wait e)

  poll_slot-err :
      (t : ℕ) (e : E)
      → poll_slot into (at {V = V} t t (err e))
        ≡ (failed (into e), record { item = none; fut = spent })
  unfolding poll_slot
  poll_slot-err zero e = refl
  poll_slot-err (suc t) e = poll_slot-err t e

  pub poll_slots-at :
      (t : ℕ) (parts : List (Part V E))
      → Quiet (suc t) parts
      → poll_slots into (all_at t parts) ≡ (went (all_by t parts), all_at (suc t) parts)
  unfolding poll_slots
  poll_slots-at t [] h = refl
  poll_slots-at t ((wait, ok v) ∷ parts) h =
      ap₂ (λ p q. join_slot into p (all_at t parts) q) (poll_slot-ok t wait v)
        (poll_slots-at t parts h)
  poll_slots-at t ((wait, err e) ∷ parts) (early, h) =
      ap₂ (λ p q. join_slot into p (all_at t parts) q) (poll_slot-early t wait e (omega arith))
        (poll_slots-at t parts h)

  -- A part that fails at poll t + 1, behind parts that have not failed.
  pub poll_slots-failed :
      (t : ℕ) (before : List (Part V E)) (e : E) (behind : List (Part V E))
      → Quiet (suc t) before
      → (slots : List (Slot V E)) × (poll_slots into (all_at t (before ++ (t, err e) ∷ behind))
          ≡ (failed (into e), slots))
  unfolding poll_slots
  poll_slots-failed t [] e behind h = (
    _,
    ap (λ p. join_slot into p (all_at t behind) (poll_slots into (all_at t behind)))
        (poll_slot-err t e),
  )
  poll_slots-failed t ((wait, ok v) ∷ before) e behind h =
      let rest = poll_slots-failed t before e behind h in
      (
        _,
        ap₂ (λ p q. join_slot into p (all_at t (before ++ (t, err e) ∷ behind)) q)
            (poll_slot-ok t wait v) rest.1,
      )
  poll_slots-failed t ((wait, err x) ∷ before) e behind (early, h) =
      let rest = poll_slots-failed t before e behind h in
      (
        _,
        ap₂ (λ p q. join_slot into p (all_at t (before ++ (t, err e) ∷ behind)) q)
            (poll_slot-early t wait x (omega arith)) rest.1,
      )

  pub poll_at :
      (t : ℕ) (parts : List (Part V E)) (b : Bool)
      → Quiet (suc t) parts
      → all_by t parts ≡ b
      → poll into (all_at t parts) ≡ after_slots (went b, all_at (suc t) parts)
  unfolding poll
  poll_at t parts b h e =
      ap after_slots (poll_slots-at t parts h ∙ ap (λ b. (went b, all_at (suc t) parts)) e)

  pub drive_more :
      (n : ℕ) (s s' : List (Slot V E))
      → poll into s ≡ (not_ready, s')
      → drive (poll into) (suc n) s ≡ drive (poll into) n s'
  unfolding drive
  drive_more n s s' e = ap (λ p. react p (drive (poll into) n)) e
