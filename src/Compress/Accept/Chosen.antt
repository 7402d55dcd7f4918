-- ===== src/Compress/Accept/Chosen.antt =====
-- Which encoding `AcceptEncoding::parse` of src/middleware/compress.rs picks.
use mathlib.Core.List.{Mem, mem-cons_self, mem-cons_of_mem}
use mathlib.Core.Path.{subst}
use actix_web.Prelude.{
  Bool, true, false, ◌||◌, Option, none, some, List, [], ◌∷◌, if◌then◌else◌, ◌≡◌, refl, sym, ap,
  ◌∙◌, All, Bool-cases, inl, inr, arith,
}
use actix_web.Prelude.Text.{Text}
use actix_web.Compress.Response.{ContentEncoding, auto, identity, deflate, gzip, br}
use actix_web.Compress.Accept.Tags.{somes, TagsOf, tags-TagsOf}
use actix_web.Compress.Accept.{
  Qualities, AcceptEncoding, less, equal, greater, Ordering, same_encoding, cmp, put_before, insert,
  sort, pick, tags, parse,
}

same_branch : (b : Bool) → (if b then identity else identity) ≡ identity
same_branch true = refl
same_branch false = refl

module _ (Q : Qualities) where
  abbrev pub better : AcceptEncoding Q → Option (AcceptEncoding Q) → AcceptEncoding Q
  better x none = x
  better x (some y) = if Q.gt y.quality x.quality then y else x

  -- The tag of the greatest quality, the first of several.
  abbrev pub best : List (AcceptEncoding Q) → Option (AcceptEncoding Q)
  best [] = none
  best (x ∷ xs) = some (better x (best xs))

  -- Whether a tag names the encoding.
  abbrev pub named : ContentEncoding → List (AcceptEncoding Q) → Bool
  named encoding [] = false
  named encoding (x ∷ xs) = same_encoding encoding x.encoding || named encoding xs

  abbrev pub encoding_of : Option (AcceptEncoding Q) → ContentEncoding
  encoding_of none = identity
  encoding_of (some x) = x.encoding

  abbrev pub chosen : ContentEncoding → List (AcceptEncoding Q) → ContentEncoding
  chosen auto xs = encoding_of (best xs)
  chosen identity xs = identity
  chosen deflate xs = if named deflate xs then deflate else identity
  chosen gzip xs = if named gzip xs then gzip else identity
  chosen br xs = if named br xs then br else identity

  abbrev first : List (AcceptEncoding Q) → Option (AcceptEncoding Q)
  first [] = none
  first (x ∷ xs) = some x

  -- No quality of a tag is greater than that of `b`.
  abbrev pub AtMost : AcceptEncoding Q → List (AcceptEncoding Q) → Type 0
  AtMost b xs = All (λ x. Q.gt x.quality b.quality ≡ false) xs

  -- No quality of a tag is NaN.
  abbrev pub AllNumbers : List (AcceptEncoding Q) → Type 0
  AllNumbers xs = All (λ x. Q.is_nan x.quality ≡ false) xs

  gt_self : (a : Q.F64) → Q.gt a a ≡ false
  gt_self a = elim (Bool-cases (Q.gt a a)) [ inl gt ↦ Q.gt_asym a a gt | inr not_gt ↦ not_gt ]

  AtMost-le :
      (b c : AcceptEncoding Q) (xs : List (AcceptEncoding Q))
      → Q.is_nan b.quality ≡ false
      → Q.gt b.quality c.quality ≡ false
      → AtMost b xs
      → AtMost c xs
  AtMost-le b c [] number h k = tt
  AtMost-le b c (x ∷ xs) number h (p, k) =
      (Q.gt_trans x.quality b.quality c.quality number p h, AtMost-le b c xs number h k)

  -- The tag is one of these, and its quality is a number that none of theirs is greater than.
  abbrev pub Greatest : Option (AcceptEncoding Q) → List (AcceptEncoding Q) → Type 0
  Greatest none xs = xs ≡ []
  Greatest (some b) xs = Mem b xs × ((Q.is_nan b.quality ≡ false) × AtMost b xs)

  better-Greatest :
      (x : AcceptEncoding Q) (o : Option (AcceptEncoding Q)) (xs : List (AcceptEncoding Q))
      → Q.is_nan x.quality ≡ false
      → Greatest o xs
      → Greatest (some (better x o)) (x ∷ xs)
  better-Greatest x none xs number h = rw h (mem-cons_self, (number, (gt_self x.quality, tt)))
  better-Greatest x (some y) xs number (m, (n, h)) = elim (Bool-cases (Q.gt y.quality x.quality)) [
    | inl gt ↦
        subst (λ b. Greatest (some (if b then y else x)) (x ∷ xs)) (sym gt)
          (mem-cons_of_mem x m, (n, (Q.gt_asym y.quality x.quality gt, h)))
    | inr not_gt ↦
        subst (λ b. Greatest (some (if b then y else x)) (x ∷ xs)) (sym not_gt)
          (mem-cons_self, (number, (gt_self x.quality, AtMost-le y x xs n not_gt h)))
  ]

  -- The best tag is one than which none is better.
  best-Greatest : (xs : List (AcceptEncoding Q)) → AllNumbers xs → Greatest (best xs) xs
  best-Greatest [] h = refl
  best-Greatest (x ∷ xs) (number, h) = better-Greatest x (best xs) xs number (best-Greatest xs h)

  insert_none : (ys : List (Option (AcceptEncoding Q))) → somes Q (insert Q none ys) ≡ somes Q ys
  unfolding insert
  insert_none [] = refl
  insert_none (none ∷ ys) = refl
  insert_none (some y ∷ ys) = refl

  cmp_greater : (x y : AcceptEncoding Q) → Q.gt y.quality x.quality ≡ true → cmp Q x y ≡ greater
  cmp_greater x y h = rw (Q.gt_asym y.quality x.quality h, h) refl

  cmp_at_most :
      (x y : AcceptEncoding Q) (ys : List (Option (AcceptEncoding Q)))
      (rest : List (Option (AcceptEncoding Q)))
      → Q.gt y.quality x.quality ≡ false
      → put_before Q (cmp Q x y) (some x) (some y) ys rest ≡ some x ∷ some y ∷ ys
  cmp_at_most x y ys rest h = elim (Bool-cases (Q.gt x.quality y.quality)) [
    | inl gt ↦ rw gt refl
    | inr not_gt ↦ rw (not_gt, h) refl
  ]

  first-insert :
      (x : AcceptEncoding Q) (ys : List (Option (AcceptEncoding Q)))
      → first (somes Q (insert Q (some x) ys)) ≡ some (better x (first (somes Q ys)))
  unfolding insert
  first-insert x [] = refl
  first-insert x (none ∷ ys) = first-insert x ys
  first-insert x (some y ∷ ys) = elim (Bool-cases (Q.gt y.quality x.quality)) [
    | inl gt ↦
        ap (λ o. first (somes Q (put_before Q o (some x) (some y) ys (insert Q (some x) ys))))
          (cmp_greater x y gt)
        ∙ ap (λ b. some (if b then y else x)) (sym gt)
    | inr not_gt ↦
        ap (λ l. first (somes Q l)) (cmp_at_most x y ys (insert Q (some x) ys) not_gt)
        ∙ ap (λ b. some (if b then y else x)) (sym not_gt)
  ]

  first-sort :
      (xs : List (Option (AcceptEncoding Q))) → first (somes Q (sort Q xs)) ≡ best (somes Q xs)
  unfolding sort
  first-sort [] = refl
  first-sort (none ∷ xs) = ap first (insert_none (sort Q xs)) ∙ first-sort xs
  first-sort (some x ∷ xs) =
      first-insert x (sort Q xs) ∙ ap (λ o. some (better x o)) (first-sort xs)

  or_swap : (a b c : Bool) → (a || (b || c)) ≡ (b || (a || c))
  or_swap a b c = ground arith

  named-insert :
      (encoding : ContentEncoding) (x : AcceptEncoding Q) (ys : List (Option (AcceptEncoding Q)))
      → named encoding (somes Q (insert Q (some x) ys)) ≡ named encoding (x ∷ somes Q ys)
  unfolding insert
  named-insert encoding x [] = refl
  named-insert encoding x (none ∷ ys) = named-insert encoding x ys
  named-insert encoding x (some y ∷ ys) = go (cmp Q x y) (named-insert encoding x ys)
    where
      go :
          (o : Ordering)
          → named encoding (somes Q (insert Q (some x) ys)) ≡ named encoding (x ∷ somes Q ys)
          → named encoding (somes Q (put_before Q o (some x) (some y) ys (insert Q (some x) ys)))
            ≡ named encoding (x ∷ y ∷ somes Q ys)
      go less h = refl
      go equal h = refl
      go greater h =
          ap (λ b. same_encoding encoding y.encoding || b) h
          ∙ or_swap (same_encoding encoding y.encoding) (same_encoding encoding x.encoding)
              (named encoding (somes Q ys))

  named-sort :
      (encoding : ContentEncoding) (xs : List (Option (AcceptEncoding Q)))
      → named encoding (somes Q (sort Q xs)) ≡ named encoding (somes Q xs)
  unfolding sort
  named-sort encoding [] = refl
  named-sort encoding (none ∷ xs) =
      ap (named encoding) (insert_none (sort Q xs)) ∙ named-sort encoding xs
  named-sort encoding (some x ∷ xs) =
      named-insert encoding x (sort Q xs)
      ∙ ap (λ b. same_encoding encoding x.encoding || b) (named-sort encoding xs)

  pick_auto :
      (xs : List (Option (AcceptEncoding Q))) → pick Q auto xs ≡ encoding_of (first (somes Q xs))
  unfolding pick
  pick_auto [] = refl
  pick_auto (none ∷ xs) = pick_auto xs
  pick_auto (some x ∷ xs) = refl

  pick_named :
      (encoding : ContentEncoding) (xs : List (Option (AcceptEncoding Q)))
      → same_encoding encoding auto ≡ false
      → pick Q encoding xs ≡ (if named encoding (somes Q xs) then encoding else identity)
  unfolding pick
  pick_named encoding [] h = refl
  pick_named encoding (none ∷ xs) h = pick_named encoding xs h
  pick_named encoding (some x ∷ xs) h = elim (Bool-cases (same_encoding encoding x.encoding)) [
    | inl same ↦ rw (h, same) refl
    | inr other ↦ rw (h, other) (pick_named encoding xs h)
  ]

  parse_named :
      (encoding : ContentEncoding) (raw : Text)
      → same_encoding encoding auto ≡ false
      → parse Q raw encoding
        ≡ (if named encoding (somes Q (tags Q raw)) then encoding else identity)
  unfolding parse
  parse_named encoding raw h =
      pick_named encoding (sort Q (tags Q raw)) h
      ∙ ap (λ b. if b then encoding else identity) (named-sort encoding (tags Q raw))

parse_eq :
    (Q : Qualities) (raw : Text) (encoding : ContentEncoding)
    → parse Q raw encoding ≡ chosen Q encoding (somes Q (tags Q raw))
unfolding parse
parse_eq Q raw auto =
    pick_auto Q (sort Q (tags Q raw)) ∙ ap (encoding_of Q) (first-sort Q (tags Q raw))
parse_eq Q raw identity =
    parse_named Q identity raw refl ∙ same_branch (named Q identity (somes Q (tags Q raw)))
parse_eq Q raw deflate = parse_named Q deflate raw refl
parse_eq Q raw gzip = parse_named Q gzip raw refl
parse_eq Q raw br = parse_named Q br raw refl

-- The encoding that is picked for a header of which no tag has NaN for its quality: where the server
-- leaves the choice, that of a tag than which none has a greater quality, the first of several; where
-- the server names an encoding, this one if a tag names it, whatever its quality, and otherwise none,
-- which is Identity. The tags are the pieces of the header between commas, without its spaces, in their
-- order; the quality of one is what stands behind its first ';', up to the next, as a number, or 0
-- where that is not a number, as in "gzip;q=0.5", and without ';' the quality of the encoding.
pub parse-chosen :
    (Q : Qualities) (raw : Text) (encoding : ContentEncoding)
    → AllNumbers Q (somes Q (tags Q raw))
    → (parse Q raw encoding ≡ chosen Q encoding (somes Q (tags Q raw)))
      × Greatest Q (best Q (somes Q (tags Q raw))) (somes Q (tags Q raw))
      × TagsOf Q raw (somes Q (tags Q raw))
parse-chosen Q raw encoding numbers =
    (parse_eq Q raw encoding, best-Greatest Q (somes Q (tags Q raw)) numbers, tags-TagsOf Q raw)
