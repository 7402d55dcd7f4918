-- ===== src/Prelude/Text/Blank.antt =====
-- When trimming leaves nothing of a text, and of the pieces of a split text.
use Prim.Native.Nat.{ℕ}
use mathlib.Core.Bool.{true}
use mathlib.Core.Logic.{◌≢◌, ◌⊎◌, inl, inr}
use mathlib.Core.Path.{◌≡◌, refl}
use mathlib.Core.List.{List, [], ◌∷◌, reverse_aux}
use native.Mathlib.Omega.{arith}
use actix_web.Prelude.Lists.{All}
use actix_web.Prelude.Tests.{◌==◌, Bool-cases}
use actix_web.Prelude.Text.{Text, split, push_head, trim, trim_start, is_whitespace}

-- Blanks only.
abbrev pub White : Text → Type 0
White = All (λ c. is_whitespace c ≡ true)

trim_start-White : (s : Text) → trim_start s ≡ [] → White s
unfolding trim_start
trim_start-White [] h = tt
trim_start-White (c ∷ s) h = elim (Bool-cases (is_whitespace c)) [
  | inl space ↦ (space, trim_start-White s (rw space at h))
  | inr other ↦ absurd (cc (rw other at h))
]

White-trim_start : (s : Text) → White s → trim_start s ≡ []
unfolding trim_start
White-trim_start [] h = refl
White-trim_start (c ∷ s) (space, h) = rw space (White-trim_start s h)

-- What is left does not begin with a blank.
trim_start_done : (s : Text) → White (trim_start s) → trim_start s ≡ []
unfolding trim_start
trim_start_done [] h = refl
trim_start_done (c ∷ s) h = elim (Bool-cases (is_whitespace c)) [
  | inl space ↦ rw space (trim_start_done s (rw space at h))
  | inr other ↦
      absurd (let k : White (c ∷ s) = rw other at h in let p : is_whitespace c ≡ true = k.0 in cc)
]

reverse_aux-White : (s t : Text) → White (reverse_aux s t) → White s
reverse_aux-White s t h = (go s t h).0
  where
    go : (s t : Text) → White (reverse_aux s t) → White s × White t
    go [] t h = (tt, h)
    go (c ∷ s) t h = let (k, l) = go s (c ∷ t) h in ((l.0, k), l.1)

reverse_aux-ne-nil : (s : Text) (c : ℕ) (t : Text) → reverse_aux s (c ∷ t) ≢ []
reverse_aux-ne-nil [] c t = cc
reverse_aux-ne-nil (d ∷ s) c t = reverse_aux-ne-nil s d (c ∷ t)

reverse_aux-nil : (s : Text) → reverse_aux s [] ≡ [] → s ≡ []
reverse_aux-nil [] h = refl
reverse_aux-nil (c ∷ s) h = absurd (reverse_aux-ne-nil s c [] h)

pub trim-White : (s : Text) → trim s ≡ [] → White s
unfolding trim
trim-White s h = trim_start-White s (
    trim_start_done s (
      reverse_aux-White (trim_start s) []
        (trim_start-White (reverse_aux (trim_start s) []) (reverse_aux-nil _ h))))

pub White-trim : (s : Text) → White s → trim s ≡ []
unfolding trim trim_start
White-trim s h = rw (White-trim_start s h) refl

module _ (sep : ℕ) where
  -- Blanks and separators only.
  abbrev pub Blank : Text → Type 0
  Blank = All (λ c. (is_whitespace c ≡ true) ⊎ (c ≡ sep))

  push_head-White :
      (c : ℕ) (ss : List Text)
      → All White (push_head c ss)
      → (is_whitespace c ≡ true) × All White ss
  push_head-White c [] h = (h.0.0, tt)
  push_head-White c (s ∷ ss) h = (h.0.0, (h.0.1, h.1))

  White-push_head :
      (c : ℕ) (ss : List Text) → is_whitespace c ≡ true → All White ss → All White (push_head c ss)
  White-push_head c [] p h = ((p, tt), tt)
  White-push_head c (s ∷ ss) p h = ((p, h.0), h.1)

  pub split-Blank : (s : Text) → All White (split sep s) → Blank s
  unfolding split
  split-Blank [] h = tt
  split-Blank (c ∷ s) h = elim (Bool-cases (c == sep)) [
    | inl at ↦ (inr (ground arith), split-Blank s ((rw at at h).1))
    | inr other ↦
        let (p, k) = push_head-White c (split sep s) (rw other at h) in (inl p, split-Blank s k)
  ]

  pub Blank-split : (s : Text) → Blank s → All White (split sep s)
  unfolding split
  Blank-split [] h = (tt, tt)
  Blank-split (c ∷ s) (p, h) = elim (Bool-cases (c == sep)) [
    | inl at ↦ rw at (tt, Blank-split s h)
    | inr other ↦ rw other (elim p [
      | inl space ↦ White-push_head c (split sep s) space (Blank-split s h)
      | inr same ↦ absurd (ground arith)
    ])
  ]
