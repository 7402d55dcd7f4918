-- ===== src/Fs/Range/Bounds.antt =====
-- Where the ranges that `HttpRange::parse` of src/fs.rs returns lie in the file.
use actix_web.Prelude.{
  drop, ℕ, ◌+◌, ◌≤◌, ◌≢◌, ◌<◌, ◌^◌, ◌≡◌, ◌∙◌, refl, Bool, true, false, ◌||◌, List, [], ◌∷◌, Option,
  none, some, arith, All, ℤ, pos, negsuc, Result, ok, err, Option-cases, inl, inr, ◌⊎◌, ◌↔◌, sym,
  Bool-cases, is_empty, if◌then◌else◌, ltb_ℤ, leb_ℤ, ◌>>=◌,
}
use mathlib.Core.Path.{subst}
use actix_web.Prelude.Text.{codes, starts_with, Text, parse_i64, split, trim}
use actix_web.Prelude.Text.Blank.{White, Blank, trim-White, White-trim, split-Blank, Blank-split}
use actix_web.Prelude.Text.Laws.{All-trim, split-NoSep, parse_i64_unsigned}
use actix_web.Fs.Range.{
  HttpRange, range, satisfied, prefix_len, Unsatisfied, suffix_range, span, span_range,
  spec_of_parts, parse_spec, collect, present, parse, trimmed, as_i64,
}

-- The range lies within a file of `size` bytes.
abbrev pub Fits : ℕ → HttpRange → Type 0
Fits size r = r.start + r.length ≤ size

-- A spec yields a range in the file, or the flag says that it lies past its end.
abbrev pub SpecFits : ℕ → Result (Option HttpRange × Bool) Unsatisfied → Type 0
SpecFits size (ok (some r, flag)) = Fits size r × (flag ≡ false)
SpecFits size (ok (none, flag)) = flag ≡ true
SpecFits size (err e) = Unit

abbrev NoDash : Text → Type 0
NoDash = All (λ d. d ≢ b'-')

suffix_range-SpecFits :
    (size : ℕ) (s : Text) → size < 2 ^ 63 → NoDash s → SpecFits size (suffix_range (pos size) s)
unfolding suffix_range
suffix_range-SpecFits size s h no_dash = elim (Option-cases (parse_i64 s)) [
  | inl bad ↦ rw bad tt
  | inr (pos n, e) ↦ rw e (ground arith)
  | inr (negsuc n, e) ↦ absurd (parse_i64_unsigned s n no_dash e)
]

-- What `span` computes from a start in the file.
abbrev SpanFits : ℕ → ℕ → Result ℤ Unsatisfied → Type 0
SpanFits size start (ok (pos n)) = (start + n ≤ size) × (0 < n)
SpanFits size start (ok (negsuc n)) = ⊥
SpanFits size start (err e) = Unit

span-SpanFits :
    (size start : ℕ) (s : Text)
    → start < size
    → NoDash s
    → SpanFits size start (span (pos size) (pos start) s)
unfolding span
span-SpanFits size start [] h no_dash = ground arith
span-SpanFits size start (c ∷ s) h no_dash = elim (Option-cases (parse_i64 (c ∷ s))) [
  | inl bad ↦ rw bad tt
  | inr (pos n, e) ↦ rw e (ground arith)
  | inr (negsuc n, e) ↦ absurd (parse_i64_unsigned (c ∷ s) n no_dash e)
]

-- What `span_range` makes of the start and the span.
placed : ℤ → ℤ → Result ℤ Unsatisfied → Result (Option HttpRange × Bool) Unsatisfied
placed size_sig start found =
    if ltb_ℤ start (pos 0)
    then err tt
    else if leb_ℤ size_sig start
    then ok (none, true)
    else (found >>= λ length. ok (some (range start length), false))

placed-SpecFits :
    (size start : ℕ) (found : Result ℤ Unsatisfied)
    → size < 2 ^ 63
    → (start < size → SpanFits size start found)
    → SpecFits size (placed (pos size) (pos start) found)
unfolding placed
placed-SpecFits size start (err e) h fits = ground arith
placed-SpecFits size start (ok (pos n)) h fits = ground (arith, fits)
placed-SpecFits size start (ok (negsuc n)) h fits = ground (arith, fits)

span_range-SpecFits :
    (size : ℕ) (s t : Text)
    → size < 2 ^ 63
    → NoDash s
    → NoDash t
    → SpecFits size (span_range (pos size) s t)
unfolding span_range placed
span_range-SpecFits size s t h no_dash no_dash' = elim (Option-cases (parse_i64 s)) [
  | inl bad ↦ rw bad tt
  | inr (pos n, e) ↦ rw e (
      placed-SpecFits size n (span (pos size) (pos n) t) h (λ p. span-SpanFits size n t p no_dash'))
  | inr (negsuc n, e) ↦ absurd (parse_i64_unsigned s n no_dash e)
]

spec_of_parts-SpecFits :
    (size : ℕ) (parts : List Text)
    → size < 2 ^ 63
    → All NoDash parts
    → SpecFits size (spec_of_parts (pos size) parts)
spec_of_parts-SpecFits size [] h no_dash = tt
spec_of_parts-SpecFits size (s ∷ []) h no_dash = tt
spec_of_parts-SpecFits size (s ∷ t ∷ _) h (ns, (nt, _)) = elim (Bool-cases (is_empty (trim s))) [
  | inl suffix ↦ rw suffix (suffix_range-SpecFits size (trim t) h (All-trim _ t nt))
  | inr start ↦
      rw start (span_range-SpecFits size (trim s) (trim t) h (All-trim _ s ns) (All-trim _ t nt))
]

parse_spec-SpecFits :
    (size : ℕ) (ra : Text) → size < 2 ^ 63 → SpecFits size (parse_spec (pos size) ra)
unfolding parse_spec
parse_spec-SpecFits size ra h = spec_of_parts-SpecFits size (split b'-' ra) h (split-NoSep b'-' ra)

abbrev has_none : List (Option HttpRange) → Bool
has_none [] = false
has_none (none ∷ rs) = true
has_none (some r ∷ rs) = has_none rs

-- What `collect` returns for `ras`, begun with the flag `seen`.
abbrev Collects :
    ℕ → List Text → Bool → Result (List (Option HttpRange) × Bool) Unsatisfied → Type 0
Collects size ras seen (ok (rs, flag)) =
    All (Fits size) (present rs) × (flag ≡ (seen || has_none rs)) × (is_empty rs ≡ is_empty ras)
Collects size ras seen (err e) = Unit

add_found :
    (size : ℕ) (ra : Text) (ras : List Text) (seen : Bool) (f : Option HttpRange) (flag : Bool)
    (rest : Result (List (Option HttpRange) × Bool) Unsatisfied)
    → SpecFits size (ok (f, flag))
    → Collects size ras (seen || flag) rest
    → Collects size (ra ∷ ras) seen (rest >>= λ r. ok (f ∷ r.0, r.1))
unfolding present
add_found size ra ras seen f flag (err e) h k = tt
add_found size ra ras seen none flag (ok (rs, b)) h k = (k.0, ground arith, refl)
add_found size ra ras seen (some r) flag (ok (rs, b)) h k = ((h.0, k.0), ground arith, refl)

collect_step :
    (size : ℕ) (ra : Text) (ras : List Text) (seen : Bool)
    (found : Result (Option HttpRange × Bool) Unsatisfied)
    (rest : Bool → Result (List (Option HttpRange) × Bool) Unsatisfied)
    → SpecFits size found
    → ((b : Bool) → Collects size ras b (rest b))
    → Collects size (ra ∷ ras) seen (found >>= λ f. rest (seen || f.1) >>= λ r. ok (f.0 ∷ r.0, r.1))
collect_step size ra ras seen (err e) rest h k = tt
collect_step size ra ras seen (ok (f, flag)) rest h k =
    add_found size ra ras seen f flag (rest (seen || flag)) h (k (seen || flag))

collect-Collects :
    (size : ℕ) (ras : List Text) (seen : Bool)
    → size < 2 ^ 63
    → Collects size ras seen (collect (pos size) ras seen)
unfolding collect present
collect-Collects size [] seen h = ground arith
collect-Collects size (ra ∷ ras) seen h =
    collect_step size ra ras seen (parse_spec (pos size) ra) (collect (pos size) ras)
      (parse_spec-SpecFits size ra h) (λ b. collect-Collects size ras b h)

-- What `parse` returns when the list holds `ras`.
abbrev ParseFits : ℕ → List Text → Result (List HttpRange) Unsatisfied → Type 0
ParseFits size ras (ok rs) = All (Fits size) rs × (is_empty rs ≡ is_empty ras)
ParseFits size ras (err e) = Unit

satisfied-ParseFits :
    (size : ℕ) (ras : List Text) (found : Result (List (Option HttpRange) × Bool) Unsatisfied)
    → Collects size ras false found
    → ParseFits size ras (found >>= λ f. satisfied (present f.0) f.1)
unfolding present
satisfied-ParseFits size ras (err e) k = tt
satisfied-ParseFits size ras (ok ([], flag)) (fits, seen, same) = rw seen (tt, same)
satisfied-ParseFits size ras (ok (some r ∷ fs, flag)) (fits, seen, same) =
    elim flag as (λ b. ParseFits size ras (satisfied (r ∷ present fs) b)) [
      | true ↦ (fits, same)
      | false ↦ (fits, same)
    ]
satisfied-ParseFits size ras (ok (none ∷ fs, flag)) (fits, seen, same) =
    rw seen (elim (Bool-cases (is_empty (present fs))) [
      | inl nothing ↦ rw nothing tt
      | inr something ↦ rw something (fits, something ∙ same)
    ])

as_i64-of_lt : (n : ℕ) → n < 2 ^ 63 → as_i64 n ≡ pos n
as_i64-of_lt n h = ground arith

-- The elements of the header's list that are not blank.
abbrev pub elements : Text → List Text
elements header = trimmed (split b',' (drop prefix_len header))

parse-ParseFits :
    (c : ℕ) (s : Text) (size : ℕ)
    → size < 2 ^ 63
    → ParseFits size (elements (c ∷ s)) (parse (c ∷ s) size)
unfolding parse
parse-ParseFits c s size h = elim (Bool-cases (starts_with (codes "bytes=") (c ∷ s))) [
  | inr other ↦ rw other tt
  | inl bytes ↦
      rw (bytes, as_i64-of_lt size h)
        (satisfied-ParseFits size es (collect (pos size) es false)
          (collect-Collects size es false h))
]
  where
    es : List Text
    es = elements (c ∷ s)

parse_prefix :
    (c : ℕ) (s : Text) (size : ℕ) {rs : List HttpRange}
    → parse (c ∷ s) size ≡ ok rs
    → starts_with (codes "bytes=") (c ∷ s) ≡ true
unfolding parse
parse_prefix c s size e = elim (Bool-cases (starts_with (codes "bytes=") (c ∷ s))) [
  | inl bytes ↦ bytes
  | inr other ↦ cc (rw other at e)
]

-- For a file of less than 2^63 bytes, every range that is returned lies within the file.
pub parse-Fits :
    (header : Text) (size : ℕ) {rs : List HttpRange}
    → size < 2 ^ 63
    → parse header size ≡ ok rs
    → All (Fits size) rs
unfolding parse
parse-Fits [] size {rs} h e = let e' : [] ≡ rs = cc in rw (← e') tt
parse-Fits (c ∷ s) size h e = (subst (ParseFits size _) e (parse-ParseFits c s size h)).0

is_empty-true : {A : Type 0} (xs : List A) → is_empty xs ≡ true → xs ≡ []
is_empty-true [] h = refl
is_empty-true (x ∷ xs) h = cc

trimmed-nil : (ss : List Text) → trimmed ss ≡ [] → All White ss
unfolding trimmed
trimmed-nil [] h = tt
trimmed-nil (s ∷ ss) h = elim (Bool-cases (is_empty (trim s))) [
  | inl blank ↦ (trim-White s (is_empty-true (trim s) blank), trimmed-nil ss (rw blank at h))
  | inr other ↦ absurd (cc (rw other at h))
]

nil-trimmed : (ss : List Text) → All White ss → trimmed ss ≡ []
unfolding trimmed
nil-trimmed [] h = refl
nil-trimmed (s ∷ ss) (p, h) = rw (White-trim s p) (nil-trimmed ss h)

-- The header names no range at all: it is empty, or "bytes=" with blanks and commas only.
abbrev pub NamesNone : Text → Type 0
NamesNone header =
    (header ≡ [])
    ⊎ ((starts_with (codes "bytes=") header ≡ true) × Blank b',' (drop prefix_len header))

Blank-elements : (header : Text) → Blank b',' (drop prefix_len header) → elements header ≡ []
Blank-elements header h = nil-trimmed _ (Blank-split b',' (drop prefix_len header) h)

elements-Blank : (header : Text) → elements header ≡ [] → Blank b',' (drop prefix_len header)
elements-Blank header h = split-Blank b',' (drop prefix_len header) (trimmed-nil _ h)

parse_nil-NamesNone :
    (header : Text) (size : ℕ) → size < 2 ^ 63 → parse header size ≡ ok [] → NamesNone header
parse_nil-NamesNone [] size h e = inl refl
parse_nil-NamesNone (c ∷ s) size h e = inr (
  parse_prefix c s size e,
  elements-Blank (c ∷ s) (
      is_empty-true _
        (sym (subst (ParseFits size (elements (c ∷ s))) e (parse-ParseFits c s size h)).1)),
)

NamesNone-parse_nil : (header : Text) (size : ℕ) → NamesNone header → parse header size ≡ ok []
unfolding parse
NamesNone-parse_nil [] size d = refl
NamesNone-parse_nil (c ∷ s) size (inl e) = cc
NamesNone-parse_nil (c ∷ s) size (inr (bytes, e)) = rw (bytes, Blank-elements (c ∷ s) e) refl

-- For a file of less than 2^63 bytes, `parse` succeeds with no range exactly when the header is
-- empty, or is "bytes=" followed by blanks and commas only.
pub parse-eq-nil_iff :
    (header : Text) (size : ℕ) → size < 2 ^ 63 → (parse header size ≡ ok []) ↔ NamesNone header
parse-eq-nil_iff header size h =
    (parse_nil-NamesNone header size h, NamesNone-parse_nil header size)
