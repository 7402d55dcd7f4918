-- ===== src/Extractor/Outcome.antt =====
-- Every tuple of futures (src/extractor.rs) comes to a result: either all its parts give a value,
-- or one of them fails first.
use mathlib.Core.Path.{ap₂}
use actix_web.Prelude.{
  ℕ, zero, suc, ◌+◌, ◌≤◌, List, [], ◌∷◌, ◌++◌, ◌≡◌, refl, ap, ◌∙◌, ◌⊎◌, inl, inr, Result, ok, err,
  leb, arith, All, Bool-cases,
}
use actix_web.Futures.{Fut, later, now, spent, after}
use actix_web.Futures.Collect.{collect, collect-Gives, depth, ready-Gives, error-Gives}
use actix_web.Extractor.{Slot, tuple, poll}
use actix_web.Extractor.Alive.{AliveFut}
use actix_web.Extractor.Parts.{Part, futures, Quiet, Quiet-le, Quiet-append}
use actix_web.Extractor.Tuple.{given, values, drive-given, drive-failed, given-Quiet}

-- The polls that are enough for these parts.
abbrev pub depths : {V E : Type 0} → List (Slot V E) → ℕ
depths [] = 0
depths (s ∷ slots) = depth s.fut + depths slots

module _ {V E : Type 0} where
  abbrev pub AllAlive : List (Fut V E) → Type 0
  AllAlive [] = Unit
  AllAlive (f ∷ futs) = AliveFut f × AllAlive futs

  -- The part that a future is.
  part_of : (f : Fut V E) → AliveFut f → (p : Part V E) × (f ≡ after p.0 p.1)
  part_of (later f) h = let ((m, r), e) = part_of f h in ((suc m, r), ap later e)
  part_of (now r) h = ((zero, r), refl)
  part_of spent h = absurd h

-- All of the parts give a value, or one fails that no other part comes before.
abbrev pub Outcome : {V E : Type 0} → List (Part V E) → Type 0
Outcome {V} {E} parts =
    ((vs : List (ℕ × V)) × (parts ≡ given vs))
    ⊎ ((before : List (Part V E)) × (m : ℕ) × (e : E) × (behind : List (Part V E)) × (parts
          ≡ before ++ (m, err e) ∷ behind)
        × Quiet (suc m) before
        × Quiet m behind)

module _ {V E : Type 0} where
  outcome_ok :
      (wait : ℕ) (v : V) (parts : List (Part V E)) → Outcome parts → Outcome ((wait, ok v) ∷ parts)
  outcome_ok wait v parts (inl (vs, e)) = inl ((wait, v) ∷ vs, ap (λ ps. (wait, ok v) ∷ ps) e)
  outcome_ok wait v parts (inr (before, m, x, behind, e, p, q)) =
      inr ((wait, ok v) ∷ before, m, x, behind, ap (λ ps. (wait, ok v) ∷ ps) e, p, q)

  outcome_err :
      (wait : ℕ) (x : E) (parts : List (Part V E)) → Outcome parts → Outcome ((wait, err x) ∷ parts)
  outcome_err wait x parts (inl (vs, e)) =
      inr ([], wait, x, given vs, ap (λ ps. (wait, err x) ∷ ps) e, tt, given-Quiet E wait vs)
  outcome_err wait x parts (inr (before, m, y, behind, e, p, q)) = elim (Bool-cases (leb wait m)) [
    | inl sooner ↦ inr (
      [],
      wait,
      x,
      before ++ (m, err y) ∷ behind,
      ap (λ ps. (wait, err x) ∷ ps) e,
      tt,
      Quiet-append wait before ((m, err y) ∷ behind) (Quiet-le wait (suc m) before (ground arith) p)
          (ground arith, Quiet-le wait m behind (ground arith) q),
    )
    | inr before_it ↦ inr (
      (wait, err x) ∷ before,
      m,
      y,
      behind,
      ap (λ ps. (wait, err x) ∷ ps) e,
      (ground arith, p),
      q,
    )
  ]

  pub outcome : (parts : List (Part V E)) → Outcome parts
  outcome [] = inl ([], refl)
  outcome ((wait, ok v) ∷ parts) = outcome_ok wait v parts (outcome parts)
  outcome ((wait, err x) ∷ parts) = outcome_err wait x parts (outcome parts)

  parts_of :
      (futs : List (Fut V E)) → AllAlive futs → (parts : List (Part V E)) × (futs ≡ futures parts)
  parts_of [] h = ([], refl)
  parts_of (f ∷ futs) (h, k) =
      let (p, e) = part_of f h in
      let (parts, e') = parts_of futs k in (p ∷ parts, ap₂ (λ f fs. f ∷ fs) e e')

  depth-after : (m : ℕ) (r : Result V E) → depth (after m r) ≡ m
  depth-after zero r = refl
  depth-after (suc m) r = ap suc (depth-after m r)

module _ (E : Type 0) {V : Type 0} where
  depths-given :
      (vs : List (ℕ × V)) (k : ℕ)
      → depths (tuple (futures {V = V} {E = E} (given vs))) ≤ k
      → All (λ v. v.0 ≤ k) vs
  depths-given [] k h = tt
  depths-given ((wait, v) ∷ vs) k h =
      let e = depth-after {V = V} {E = E} wait (ok v) in
      (omega arith, depths-given vs k (omega arith))

module _ {V E : Type 0} where
  depths-failed :
      (before : List (Part V E)) (m : ℕ) (e : E) (behind : List (Part V E))
      → m ≤ depths (tuple (futures (before ++ (m, err e) ∷ behind)))
  depths-failed [] m e behind = let h = depth-after {V = V} {E = E} m (err e) in omega arith
  depths-failed ((wait, r) ∷ before) m e behind =
      let h = depths-failed before m e behind in omega arith

-- The future of a tuple, of as many polls as its parts can take.
abbrev pub tuple_future : {V E F : Type 0} → (E → F) → List (Slot V E) → Fut (List V) F
tuple_future into slots = collect (poll into) (suc (depths slots)) slots

module _ {V E F : Type 0} (into : E → F) where
  tuple_future_within :
      (n k : ℕ) (vs : List (ℕ × V))
      → depths (tuple (futures {V = V} {E = E} (given vs))) ≡ k
      → All (λ v. v.0 ≤ n) vs
      → (m : ℕ) × (m ≤ n)
        × (collect (poll into) (suc k) (tuple (futures {V = V} {E = E} (given vs)))
            ≡ after m (ok (values vs)))
  tuple_future_within n k vs e h = elim (Bool-cases (leb n k)) [
    | inl enough ↦
        collect-Gives (poll into) n k (ok (values vs)) _ (ground arith)
          (ready-Gives (values vs) _ (drive-given {E = E} into n vs h))
    | inr more ↦
        let (m, l, q) = collect-Gives (poll into) k k (ok (values vs)) _ (omega arith) (
          ready-Gives (values vs) _
            (drive-given {E = E} into k vs (depths-given E vs k (omega arith)))) in
        (m, ground arith, q)
  ]

  pub tuple_future-given :
      (n : ℕ) (vs : List (ℕ × V))
      → All (λ v. v.0 ≤ n) vs
      → (m : ℕ) × (m ≤ n)
        × (tuple_future into (tuple (futures {V = V} {E = E} (given vs)))
            ≡ after m (ok (values vs)))
  tuple_future-given n vs h = tuple_future_within n _ vs refl h

  pub tuple_future-failed :
      (m : ℕ) (before : List (Part V E)) (e : E) (behind : List (Part V E))
      → Quiet (suc m) before
      → Quiet m behind
      → (k : ℕ) × (k ≤ m)
        × (tuple_future into (tuple (futures (before ++ (m, err e) ∷ behind)))
            ≡ after k (err (into e)))
  tuple_future-failed m before e behind p q =
      collect-Gives (poll into) m _ (err (into e)) _ (depths-failed before m e behind)
        (error-Gives (into e) _ (drive-failed into m before e behind p q))

  future_outcome :
      (parts : List (Part V E))
      → Outcome parts
      → (k : ℕ) × (r : Result (List V) F) × (tuple_future into (tuple (futures parts)) ≡ after k r)
  future_outcome parts (inl (vs, e)) =
      let (k, l, q) =
        tuple_future-given (depths (tuple (futures {V = V} {E = E} (given vs)))) vs
          (depths-given E vs _ (omega arith)) in
      (k, ok (values vs), ap (λ ps. tuple_future into (tuple (futures ps))) e ∙ q)
  future_outcome parts (inr (before, m, x, behind, e, p, q)) =
      let (k, l, h) = tuple_future-failed m before x behind p q in
      (k, err (into x), ap (λ ps. tuple_future into (tuple (futures ps))) e ∙ h)

  -- A tuple of futures that are not done comes to a result.
  pub tuple_future-after :
      (futs : List (Fut V E))
      → AllAlive futs
      → (k : ℕ) × (r : Result (List V) F) × (tuple_future into (tuple futs) ≡ after k r)
  tuple_future-after futs h =
      let (parts, e) = parts_of futs h in
      let (k, r, q) = future_outcome parts (outcome parts) in
      (k, r, ap (λ fs. tuple_future into (tuple fs)) e ∙ q)
