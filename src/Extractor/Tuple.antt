-- ===== src/Extractor/Tuple.antt =====
-- What the extraction of a tuple (src/extractor.rs) comes to.
use mathlib.Core.Path.{ap₂}
use actix_web.Prelude.{
  ℕ, zero, suc, ◌+◌, ◌≤◌, ◌<◌, true, false, some, List, [], ◌∷◌, ◌++◌, map, ◌≡◌, refl, ap, ◌∙◌,
  Result, ok, err, leb, arith, All, Bool-cases, inl, inr,
}
use actix_web.Futures.{ready, error}
use actix_web.Futures.Drive.{drive, react}
use actix_web.Extractor.{tuple, put, take_items, finish, after_slots, poll}
use actix_web.Extractor.Parts.{
  Part, futures, at, all_at, all_by, Quiet, Quiet-le, Quiet-append, tuple_at, poll_slots-failed,
  poll_at, drive_more,
}

-- Values that come after some polls.
abbrev pub given : {V E : Type 0} → List (ℕ × V) → List (Part V E)
given [] = []
given ((wait, v) ∷ vs) = (wait, ok v) ∷ given vs

abbrev pub values : {V : Type 0} → List (ℕ × V) → List V
values vs = map (λ v. v.1) vs

module _ (E : Type 0) {V : Type 0} where
  pub given-Quiet : (t : ℕ) (vs : List (ℕ × V)) → Quiet {V = V} {E = E} t (given vs)
  given-Quiet t [] = tt
  given-Quiet t ((wait, v) ∷ vs) = given-Quiet t vs

  given-all_by :
      (n : ℕ) (vs : List (ℕ × V))
      → All (λ v. v.0 ≤ n) vs
      → all_by {V = V} {E = E} n (given vs) ≡ true
  given-all_by n [] h = refl
  given-all_by n ((wait, v) ∷ vs) (p, h) = ground (arith, given-all_by n vs h)

  at_end :
      (t wait : ℕ) (v : V)
      → leb wait t ≡ true
      → (at {V = V} {E = E} (suc t) wait (ok v)).item ≡ some v
  at_end t zero v h = refl
  at_end zero (suc wait) v h = ground arith
  at_end (suc t) (suc wait) v h = at_end t wait v (ground arith)

  take_items-given :
      (t : ℕ) (vs : List (ℕ × V))
      → all_by {V = V} {E = E} t (given vs) ≡ true
      → take_items (all_at {V = V} {E = E} (suc t) (given vs)) ≡ some (values vs)
  unfolding take_items
  take_items-given t [] h = refl
  take_items-given t ((wait, v) ∷ vs) h =
      ap₂ put (at_end t wait v (ground arith)) (take_items-given t vs (ground arith))

module _ {V E F : Type 0} (into : E → F) where
  drive_done :
      (n t : ℕ) (vs : List (ℕ × V))
      → all_by {V = V} {E = E} t (given vs) ≡ true
      → drive (poll into) (suc n) (all_at t (given vs)) ≡ ready (values vs)
  unfolding drive
  drive_done n t vs h =
      ap (λ p. react p (drive (poll into) n))
        (poll_at into t (given vs) true (given-Quiet E (suc t) vs) h
          ∙ ap (finish (all_at (suc t) (given vs))) (take_items-given E t vs h))

  given_from :
      (n t k : ℕ) (vs : List (ℕ × V))
      → t + n ≡ k
      → all_by {V = V} {E = E} k (given vs) ≡ true
      → drive (poll into) (suc n) (all_at t (given vs)) ≡ ready (values vs)
  given_from zero t k vs e h = let e' : t ≡ k = omega arith in drive_done zero t vs (rw e' h)
  given_from (suc n) t k vs e h = elim (Bool-cases (all_by {V = V} {E = E} t (given vs))) [
    | inl done ↦ drive_done (suc n) t vs done
    | inr more ↦
        drive_more into (suc n) _ _
          (poll_at into t (given vs) false (given-Quiet E (suc t) vs) more)
        ∙ given_from n (suc t) k vs (omega arith) h
  ]

  all_by_slow :
      (t m : ℕ) (before : List (Part V E)) (r : Result V E) (behind : List (Part V E))
      → t < m
      → all_by t (before ++ (m, r) ∷ behind) ≡ false
  all_by_slow t m [] r behind h = ground arith
  all_by_slow t m ((wait, x) ∷ before) r behind h = ground (arith, all_by_slow t m before r behind)

  drive_fails :
      (n t : ℕ) (before : List (Part V E)) (e : E) (behind : List (Part V E))
      → Quiet (suc t) before
      → drive (poll into) (suc n) (all_at t (before ++ (t, err e) ∷ behind)) ≡ error (into e)
  unfolding drive poll
  drive_fails n t before e behind h =
      ap (λ p. react (after_slots p) (drive (poll into) n))
        (poll_slots-failed into t before e behind h).1

  drive_failed :
      (n t m : ℕ) (before : List (Part V E)) (e : E) (behind : List (Part V E))
      → t + n ≡ m
      → Quiet (suc m) before
      → Quiet m behind
      → drive (poll into) (suc n) (all_at t (before ++ (m, err e) ∷ behind)) ≡ error (into e)
  drive_failed zero t m before e behind h p q =
      let e' : m ≡ t = omega arith in rw e' (drive_fails zero t before e behind (rw e' at p))
  drive_failed (suc n) t m before e behind h p q =
      drive_more into (suc n) _ _ (
        poll_at into t (before ++ (m, err e) ∷ behind) false
          (Quiet-append (suc t) before ((m, err e) ∷ behind)
            (Quiet-le (suc t) (suc m) before (omega arith) p)
            (omega arith, Quiet-le (suc t) m behind (omega arith) q))
          (all_by_slow t m before (err e) behind (omega arith)))
      ∙ drive_failed n (suc t) m before e behind (omega arith) p q

-- A tuple whose parts all give a value, each within n + 1 polls, is extracted by poll n + 1, with
-- the values in the order of the parts, whatever the order in which they come.
pub drive-given :
    {V E F : Type 0} (into : E → F) (n : ℕ) (vs : List (ℕ × V))
    → All (λ v. v.0 ≤ n) vs
    → drive (poll into) (suc n) (tuple (futures {V = V} {E = E} (given vs))) ≡ ready (values vs)
drive-given {V} {E} into n vs h =
    ap (drive (poll into) (suc n)) (tuple_at {V = V} {E = E} (given vs))
    ∙ given_from into n zero n vs (omega arith) (given-all_by E n vs h)

-- A part that fails after m polls makes the extraction fail at poll m + 1 with its error, where the
-- parts before it fail later if they fail, and those behind it no earlier: the error that comes
-- first is returned and, of those that come at one poll, that of the first part. Parts that are not
-- ready by then do not hold it back.
pub drive-failed :
    {V E F : Type 0} (into : E → F) (m : ℕ) (before : List (Part V E)) (e : E)
    (behind : List (Part V E))
    → Quiet (suc m) before
    → Quiet m behind
    → drive (poll into) (suc m) (tuple (futures (before ++ (m, err e) ∷ behind))) ≡ error (into e)
drive-failed into m before e behind p q =
    ap (drive (poll into) (suc m)) (tuple_at (before ++ (m, err e) ∷ behind))
    ∙ drive_failed into m zero m before e behind (omega arith) p q
