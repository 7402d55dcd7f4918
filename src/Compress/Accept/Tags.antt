-- ===== src/Compress/Accept/Tags.antt =====
-- What the tags of an Accept-Encoding header are to src/middleware/compress.rs.
use actix_web.Prelude.{
  ℕ, ◌==◌, ◌≢◌, Option, none, some, List, [], ◌∷◌, ◌++◌, map, if◌then◌else◌, ◌≡◌, refl, ap, ◌∙◌,
  All, Bool-cases, inl, inr, ◌⊎◌, arith,
}
use actix_web.Prelude.Text.{Text, split, push_head}
use actix_web.Prelude.Text.Laws.{split-NoSep}
use actix_web.Compress.Accept.{
  Qualities, AcceptEncoding, without_spaces, or_zero, of_parts, new, tags,
}

-- The tags that there are.
abbrev pub somes : (Q : Qualities) → List (Option (AcceptEncoding Q)) → List (AcceptEncoding Q)
somes Q [] = []
somes Q (none ∷ xs) = somes Q xs
somes Q (some x ∷ xs) = x ∷ somes Q xs

-- A text without its spaces.
abbrev pub compact : Text → Text
compact [] = []
compact (c ∷ s) = (if c == 32 then [] else c ∷ []) ++ compact s

-- Texts with a separator between them.
abbrev pub joined : ℕ → List Text → Text
joined sep [] = []
joined sep (s ∷ []) = s
joined sep (s ∷ t ∷ ss) = s ++ sep ∷ joined sep (t ∷ ss)

-- The pieces of a text between its separators.
abbrev pub Pieces : ℕ → Text → List Text → Type 0
Pieces sep s ss = (joined sep ss ≡ s) × All (All (λ c. c ≢ sep)) ss

without_spaces-compact : (s : Text) → without_spaces s ≡ compact s
without_spaces-compact [] = refl
without_spaces-compact (c ∷ s) = elim (Bool-cases (c == 32)) [
  | inl space ↦ rw space (without_spaces-compact s)
  | inr other ↦ rw other (ap (λ t. c ∷ t) (without_spaces-compact s))
]

module _ (sep : ℕ) where
  push_head-ne-nil : (c : ℕ) (ss : List Text) → push_head c ss ≢ []
  push_head-ne-nil c [] = cc
  push_head-ne-nil c (s ∷ ss) = cc

  split-ne-nil : (s : Text) → split sep s ≢ []
  unfolding split
  split-ne-nil [] = cc
  split-ne-nil (c ∷ s) = elim (Bool-cases (c == sep)) [
    | inl at ↦ rw at (λ h. cc)
    | inr other ↦ rw other (push_head-ne-nil c (split sep s))
  ]

  joined-push_head : (c : ℕ) (ss : List Text) → joined sep (push_head c ss) ≡ c ∷ joined sep ss
  joined-push_head c [] = refl
  joined-push_head c (s ∷ []) = refl
  joined-push_head c (s ∷ t ∷ ss) = refl

  joined_cons : (ss : List Text) → ss ≢ [] → joined sep ([] ∷ ss) ≡ sep ∷ joined sep ss
  joined_cons [] h = absurd (h refl)
  joined_cons (s ∷ ss) h = refl

  joined-split : (s : Text) → joined sep (split sep s) ≡ s
  unfolding split
  joined-split [] = refl
  joined-split (c ∷ s) = elim (Bool-cases (c == sep)) [
    | inl at ↦
        let same : sep ≡ c = ground arith in
        rw at (
          joined_cons (split sep s) (split-ne-nil s)
          ∙ ap (λ t. sep ∷ t) (joined-split s)
          ∙ ap (λ d. d ∷ s) same)
    | inr other ↦ rw other (joined-push_head c (split sep s) ∙ ap (λ t. c ∷ t) (joined-split s))
  ]

  split-Pieces : (s : Text) → Pieces sep s (split sep s)
  split-Pieces s = (joined-split s, split-NoSep sep s)

module _ (Q : Qualities) where
  -- A tag without ';' has the quality of its encoding; behind the first ';' and up to the second, if
  -- there is one, stands a number, or else the quality is 0.
  abbrev pub ReadAs : List Text → AcceptEncoding Q → Type 0
  ReadAs [] x = ⊥
  ReadAs (name ∷ []) x = (x.encoding ≡ Q.from name) × (x.quality ≡ Q.quality (Q.from name))
  ReadAs (name ∷ q ∷ parts) x =
      (x.encoding ≡ Q.from name)
      × ((Q.from_str q ≡ some x.quality) ⊎ ((Q.from_str q ≡ none) × (x.quality ≡ Q.zero)))

  abbrev pub Tag : Text → AcceptEncoding Q → Type 0
  Tag piece x = (parts : List Text) × (Pieces b';' piece parts × ReadAs parts x)

  abbrev pub Tags : List Text → List (AcceptEncoding Q) → Type 0
  Tags [] [] = Unit
  Tags [] (x ∷ xs) = ⊥
  Tags (piece ∷ pieces) [] = ⊥
  Tags (piece ∷ pieces) (x ∷ xs) = Tag piece x × Tags pieces xs

  -- The tags of a header: of its pieces between commas, spaces left out.
  abbrev pub TagsOf : Text → List (AcceptEncoding Q) → Type 0
  TagsOf raw xs = (pieces : List Text) × (Pieces b',' (compact raw) pieces × Tags pieces xs)

  -- A tag that is there, and how its parts read.
  abbrev Read : Option (AcceptEncoding Q) → List Text → Type 0
  Read found parts = (x : AcceptEncoding Q) × (found ≡ some x) × ReadAs parts x

  number_read :
      (q : Text) (found : Option Q.F64)
      → Q.from_str q ≡ found
      → (Q.from_str q ≡ some (or_zero Q found))
        ⊎ ((Q.from_str q ≡ none) × (or_zero Q found ≡ Q.zero))
  number_read q none h = inr (h, refl)
  number_read q (some n) h = inl h

  of_parts-Read : (parts : List Text) → parts ≢ [] → Read (of_parts Q parts) parts
  of_parts-Read [] h = absurd (h refl)
  of_parts-Read (name ∷ []) h = (_, refl, (refl, refl))
  of_parts-Read (name ∷ q ∷ parts) h = (_, refl, (refl, number_read q (Q.from_str q) refl))

  Tags-new : (pieces : List Text) → Tags pieces (somes Q (map (new Q) pieces))
  unfolding new
  Tags-new [] = tt
  Tags-new (piece ∷ pieces) =
      go (of_parts Q (split b';' piece))
        (of_parts-Read (split b';' piece) (split-ne-nil b';' piece)) (Tags-new pieces)
    where
      go :
          (found : Option (AcceptEncoding Q))
          → Read found (split b';' piece)
          → Tags pieces (somes Q (map (new Q) pieces))
          → Tags (piece ∷ pieces) (somes Q (found ∷ map (new Q) pieces))
      go none (x, e, r) rest = absurd cc
      go (some y) (x, e, r) rest =
          let same : x ≡ y = cc in
          ((split b';' piece, (split-Pieces b';' piece, rw same at r)), rest)

  pub tags-TagsOf : (raw : Text) → TagsOf raw (somes Q (tags Q raw))
  tags-TagsOf raw = rw (without_spaces-compact raw) (
    split b',' (compact raw),
    (split-Pieces b',' (compact raw), Tags-new (split b',' (compact raw))),
  )
