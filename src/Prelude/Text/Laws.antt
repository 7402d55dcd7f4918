-- ===== src/Prelude/Text/Laws.antt =====
-- Laws of the methods of `str`: what splitting and trimming keep of every character.
use Prim.Native.Nat.{ℕ}
use mathlib.Core.Logic.{◌≢◌, inl, inr}
use mathlib.Core.List.{List, [], ◌∷◌, reverse_aux}
use mathlib.Core.Option.{some}
use native.Mathlib.Omega.{arith}
use actix_web.Prelude.Lists.{All}
use actix_web.Prelude.Tests.{◌==◌, Bool-cases}
use actix_web.Prelude.Int.{negsuc}
use actix_web.Prelude.Text.{Text, split, push_head, trim, trim_start, is_whitespace, parse_i64}

module _ {ℓ} (P : ℕ → Type ℓ) where
  All-push_head : (c : ℕ) (ss : List Text) → P c → All (All P) ss → All (All P) (push_head c ss)
  All-push_head c [] p h = ((p, tt), tt)
  All-push_head c (s ∷ ss) p h = ((p, h.0), h.1)

  -- Every piece of a split text has what every character of the text has.
  pub All-split : (sep : ℕ) (s : Text) → All P s → All (All P) (split sep s)
  unfolding split
  All-split sep [] h = (tt, tt)
  All-split sep (c ∷ s) (p, h) = elim (Bool-cases (c == sep)) [
    | inl at ↦ rw at (tt, All-split sep s h)
    | inr not_at ↦ rw not_at (All-push_head c (split sep s) p (All-split sep s h))
  ]

  All-trim_start : (s : Text) → All P s → All P (trim_start s)
  unfolding trim_start
  All-trim_start [] h = tt
  All-trim_start (c ∷ s) (p, h) = elim (Bool-cases (is_whitespace c)) [
    | inl space ↦ rw space (All-trim_start s h)
    | inr other ↦ rw other (p, h)
  ]

  All-reverse_aux : (s t : Text) → All P s → All P t → All P (reverse_aux s t)
  All-reverse_aux [] t h k = k
  All-reverse_aux (c ∷ s) t (p, h) k = All-reverse_aux s (c ∷ t) h (p, k)

  pub All-trim : (s : Text) → All P s → All P (trim s)
  unfolding trim
  All-trim s h =
      All-reverse_aux _ [] (All-trim_start _ (All-reverse_aux _ [] (All-trim_start s h) tt)) tt

-- No piece of a split text holds the separator.
pub split-NoSep : (sep : ℕ) (s : Text) → All (All (λ d. d ≢ sep)) (split sep s)
unfolding split
split-NoSep sep [] = (tt, tt)
split-NoSep sep (c ∷ s) = elim (Bool-cases (c == sep)) [
  | inl at ↦ rw at (tt, split-NoSep sep s)
  | inr not_at ↦
      rw not_at (All-push_head (λ d. d ≢ sep) c (split sep s) (ground arith) (split-NoSep sep s))
]

-- Without a sign no negative number is read.
pub parse_i64_unsigned : (s : Text) (n : ℕ) → All (λ d. d ≢ b'-') s → parse_i64 s ≢ some (negsuc n)
unfolding parse_i64
parse_i64_unsigned [] n h = cc
parse_i64_unsigned (c ∷ s) n h = ground arith
