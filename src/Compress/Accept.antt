-- ===== src/Compress/Accept.antt =====
-- `AcceptEncoding` of src/middleware/compress.rs, which picks the encoding of a response by the
-- header of the request. Numbers and the names of encodings are parameters.
pub mod Chosen
pub mod Tags
use actix_web.Prelude.{
  ℕ, Bool, true, false, ◌==◌, ◌||◌, Option, none, some, List, [], ◌∷◌, map, if◌then◌else◌, ◌≡◌,
  refl, ap, ◌∙◌, Bool-cases, inl, inr,
}
use actix_web.Prelude.Text.{Text, split}
use actix_web.Compress.Response.{ContentEncoding, auto, identity, deflate, gzip, br}

-- `f64`, with what `actix_http` says of encodings.
pub record Qualities : Type 1 where
  pub F64 : Type 0
  -- `a > b`, which is `b < a`
  pub gt : F64 → F64 → Bool
  pub gt_asym : (a b : F64) → gt a b ≡ true → gt b a ≡ false
  -- `is_nan`
  pub is_nan : F64 → Bool
  pub gt_trans : (a b c : F64) → is_nan b ≡ false → gt a b ≡ false → gt b c ≡ false → gt a c ≡ false
  pub zero : F64
  -- `f64::from_str(s).ok()`, which is NaN for "nan"
  pub from_str : Text → Option F64
  -- `ContentEncoding::from(s)` and `encoding.quality()`
  pub from : Text → ContentEncoding
  pub quality : ContentEncoding → F64

pub data Ordering : Type 0 where
  less : Ordering
  equal : Ordering
  greater : Ordering

abbrev pub number : ContentEncoding → ℕ
number auto = 0
number identity = 1
number deflate = 2
number gzip = 3
number br = 4

-- `==` of encodings.
abbrev pub same_encoding : ContentEncoding → ContentEncoding → Bool
same_encoding a b = number a == number b

-- `str::replace(' ', "")`.
abbrev pub without_spaces : Text → Text
without_spaces [] = []
without_spaces (c ∷ s) = let rest = without_spaces s in if c == 32 then rest else c ∷ rest

module _ (Q : Qualities) where
  pub record AcceptEncoding : Type 0 where
    pub encoding : ContentEncoding
    pub quality : Q.F64

  -- `Ord::cmp` of `AcceptEncoding`, and of an `Option` of it.
  abbrev pub cmp : AcceptEncoding → AcceptEncoding → Ordering
  cmp a b =
      if Q.gt a.quality b.quality then less else if Q.gt b.quality a.quality then greater else equal

  abbrev pub cmp_option : Option AcceptEncoding → Option AcceptEncoding → Ordering
  cmp_option none none = equal
  cmp_option none (some b) = less
  cmp_option (some a) none = greater
  cmp_option (some a) (some b) = cmp a b

  -- `slice::sort`, which keeps the order of what is equal. For a quality that is NaN the order is not
  -- total, and what the library then makes of the slice is not specified: this is one such order.
  abbrev pub put_before :
      Ordering
      → Option AcceptEncoding
      → Option AcceptEncoding
      → List (Option AcceptEncoding)
      → List (Option AcceptEncoding)
      → List (Option AcceptEncoding)
  put_before greater x y ys inserted = y ∷ inserted
  put_before less x y ys inserted = x ∷ y ∷ ys
  put_before equal x y ys inserted = x ∷ y ∷ ys

  unfoldable pub insert :
      Option AcceptEncoding → List (Option AcceptEncoding) → List (Option AcceptEncoding)
  insert x [] = x ∷ []
  insert x (y ∷ ys) = put_before (cmp_option x y) x y ys (insert x ys)

  unfoldable pub sort : List (Option AcceptEncoding) → List (Option AcceptEncoding)
  sort [] = []
  sort (x ∷ xs) = insert x (sort xs)

  -- `AcceptEncoding::new`, of the parts of the tag.
  abbrev pub or_zero : Option Q.F64 → Q.F64
  or_zero (some q) = q
  or_zero none = Q.zero

  abbrev pub of_parts : List Text → Option AcceptEncoding
  of_parts [] = none
  of_parts (name ∷ []) = some (record { encoding = Q.from name; quality = Q.quality (Q.from name) })
  of_parts (name ∷ q ∷ parts) =
      some (record { encoding = Q.from name; quality = or_zero (Q.from_str q) })

  unfoldable pub new : Text → Option AcceptEncoding
  new tag = of_parts (split b';' tag)

  -- The loop of `AcceptEncoding::parse`.
  unfoldable pub pick : ContentEncoding → List (Option AcceptEncoding) → ContentEncoding
  pick encoding [] = identity
  pick encoding (none ∷ encodings) = pick encoding encodings
  pick encoding (some enc ∷ encodings) =
      let rest = pick encoding encodings in
      if same_encoding encoding auto
      then enc.encoding
      else if same_encoding encoding enc.encoding
      then encoding
      else rest

  abbrev pub tags : Text → List (Option AcceptEncoding)
  tags raw = map new (split b',' (without_spaces raw))

  -- `AcceptEncoding::parse`.
  unfoldable pub parse : Text → ContentEncoding → ContentEncoding
  parse raw encoding = pick encoding (sort (tags raw))
