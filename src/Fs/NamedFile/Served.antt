-- ===== src/Fs/NamedFile/Served.antt =====
-- What `NamedFile::respond_to` (src/fs.rs) streams, and when it cannot answer.
use mathlib.Core.Path.{subst}
use actix_web.Prelude.{
  String, ℕ, ◌+◌, ◌≤◌, ◌<◌, ◌^◌, ◌≡◌, sym, refl, Bool, true, false, not, Option, none, some, List,
  [], ◌∷◌, ok, err, Result, arith, length, take, drop, Bool-cases, inl, inr, if◌then◌else◌, ◌==◌,
  ◌||◌, ◌>>=◌, All, Result-cases, ◌↔◌,
}
use text.Mathlib.Text.{◌==◌ as str_eq}
use actix_web.Prelude.Text.{Text}
use actix_web.Fs.Chunks.{ChunkedReadFile, reader}
use actix_web.Fs.Chunks.Delivery.{Delivers, reader-Delivers}
use actix_web.Fs.Range.{parse, HttpRange, Unsatisfied}
use actix_web.Fs.Range.Bounds.{parse-Fits, Fits, NamesNone, parse-eq-nil_iff}
use actix_web.Fs.NamedFile.{
  HeaderTypes, StaticFileConfig, NamedFile, Conditions, Response, Header, Body, no_body, message,
  streaming, Panic, index_out_of_bounds, respond_to, respond_tagged, serve, serve_range,
  serve_ranges, etag_of, precondition_failed, not_modified, tagged_headers, last_modified_of,
  SystemTime, earlier, later, modified_before_epoch,
}

module _ {T : HeaderTypes} where
  -- A body that is streamed is a part of the file, not read yet.
  abbrev pub PartOf : NamedFile T → Body T → Type 0
  PartOf f (streaming r) = (r ≡ reader r.offset r.size f.file) × (r.offset + r.size ≤ f.len)
  PartOf f (message s) = Unit
  PartOf f no_body = Unit

  abbrev Answers : NamedFile T → Result (Response T) Panic → Type 0
  Answers f (ok resp) = PartOf f resp.body
  Answers f (err p) = Unit

  serve-PartOf :
      (f : NamedFile T) (method : String) (failed unchanged : Bool) (headers : List (Header T))
      (n offset : ℕ)
      → offset + n ≤ f.len
      → PartOf f (serve f method failed unchanged headers n offset).body
  unfolding serve
  serve-PartOf f method true unchanged headers n offset h = tt
  serve-PartOf f method false true headers n offset h = tt
  serve-PartOf f method false false headers n offset h = elim (Bool-cases (str_eq method "HEAD")) [
    | inl head ↦ rw head tt
    | inr other ↦ elim (Bool-cases (not (offset == 0) || not (n == f.len))) [
      | inl part ↦ rw (other, part) (refl, h)
      | inr whole ↦ rw (other, whole) (refl, h)
    ]
  ]

  serve_ranges-Answers :
      (f : NamedFile T) (method : String) (failed unchanged : Bool) (headers : List (Header T))
      (found : Result (List HttpRange) Unsatisfied)
      → ((rs : List HttpRange) → found ≡ ok rs → All (Fits f.len) rs)
      → Answers f (serve_ranges f method failed unchanged headers found)
  unfolding serve_ranges
  serve_ranges-Answers f method failed unchanged headers (err e) h = tt
  serve_ranges-Answers f method failed unchanged headers (ok []) h = tt
  serve_ranges-Answers f method failed unchanged headers (ok (r ∷ rs)) h =
      serve-PartOf f method failed unchanged _ r.length r.start (h (r ∷ rs) refl).0

  serve_range-Answers :
      (f : NamedFile T) (method : String) (failed unchanged : Bool) (headers : List (Header T))
      (range : Option (Option Text))
      → f.len < 2 ^ 63
      → Answers f (serve_range f method failed unchanged headers range)
  unfolding serve_range
  serve_range-Answers f method failed unchanged headers none h =
      serve-PartOf f method failed unchanged headers f.len 0 (omega arith)
  serve_range-Answers f method failed unchanged headers (some none) h = tt
  serve_range-Answers f method failed unchanged headers (some (some range)) h =
      serve_ranges-Answers f method failed unchanged headers (parse range f.len)
        (λ rs e. parse-Fits range f.len h e)

  tagged-Answers :
      (f : NamedFile T) (req : Conditions T) (modified : Option T.HttpDate)
      (tag : Result (Option T.EntityTag) Panic)
      → f.len < 2 ^ 63
      → Answers f (tag >>= respond_tagged f req modified)
  tagged-Answers f req modified (err p) h = tt
  tagged-Answers f req modified (ok tag) h = serve_range-Answers f req.method _ _ _ req.range h

  respond_to-Answers :
      (c : StaticFileConfig) (f : NamedFile T) (req : Conditions T)
      → f.len < 2 ^ 63
      → Answers f (respond_to c f req)
  unfolding respond_to
  respond_to-Answers c f req h = elim (Bool-cases (f.status_code == 200)) [
    | inr other ↦ rw other (refl, omega arith)
    | inl plain ↦ elim (Bool-cases (c.is_method_allowed req.method)) [
      | inr refused ↦ rw (plain, refused) tt
      | inl allowed ↦ rw (plain, allowed) (tagged-Answers f req _ _ h)
    ]
  ]

  PartOf-Delivers :
      (delays : ℕ → ℕ) (f : NamedFile T) (r : ChunkedReadFile)
      → f.len ≡ length f.file
      → f.len < 2 ^ 63
      → PartOf f (streaming r)
      → Delivers delays r (take r.size (drop r.offset f.file))
  PartOf-Delivers delays f r e h (same, fits) =
      subst (λ s. Delivers delays s (take r.size (drop r.offset f.file))) (sym same)
        (reader-Delivers delays r.offset r.size f.file (omega arith) (omega arith))

-- Whatever the request, a body that is streamed lies in the file and is delivered: for a file of
-- less than 2^63 bytes the reader gives exactly the bytes of its range, in chunks, then ends.
pub respond_to-Delivers :
    {T : HeaderTypes} (delays : ℕ → ℕ) (c : StaticFileConfig) (f : NamedFile T) (req : Conditions T)
    (resp : Response T) (r : ChunkedReadFile)
    → f.len ≡ length f.file
    → f.len < 2 ^ 63
    → respond_to c f req ≡ ok resp
    → resp.body ≡ streaming r
    → (r.offset + r.size ≤ f.len) × Delivers delays r (take r.size (drop r.offset f.file))
respond_to-Delivers delays c f req resp r e h answered streamed =
    let p : PartOf f (streaming r) =
      subst (PartOf f) streamed (subst (Answers f) answered (respond_to-Answers c f req h)) in
    (p.1, PartOf-Delivers delays f r e h p)

-- The tag that is computed, where tags are used.
abbrev pub tag_of :
    {T : HeaderTypes} → StaticFileConfig → NamedFile T → Result (Option T.EntityTag) Panic
tag_of c f = if c.is_use_etag then etag_of f f.modified else ok none

-- A request for which the Range header is there, is text and names no range.
abbrev pub AsksNone : Option (Option Text) → Type 0
AsksNone none = ⊥
AsksNone (some none) = ⊥
AsksNone (some (some range)) = NamesNone range

-- The request comes to the ranges, and names none.
abbrev pub AsksNothing : {T : HeaderTypes} → StaticFileConfig → NamedFile T → Conditions T → Type 0
AsksNothing {T} c f req =
    (f.status_code ≡ 200)
    × (c.is_method_allowed req.method ≡ true)
    × ((tag : Option T.EntityTag) × (tag_of c f ≡ ok tag))
    × AsksNone req.range

module _ {T : HeaderTypes} where
  serve_range_asks :
      (f : NamedFile T) (method : String) (failed unchanged : Bool) (headers : List (Header T))
      (range : Option (Option Text))
      → f.len < 2 ^ 63
      → serve_range f method failed unchanged headers range ≡ err index_out_of_bounds
      → AsksNone range
  unfolding serve_range serve_ranges
  serve_range_asks f method failed unchanged headers none h e = cc
  serve_range_asks f method failed unchanged headers (some none) h e = cc
  serve_range_asks f method failed unchanged headers (some (some range)) h e =
      (parse-eq-nil_iff range f.len h).0 (go (parse range f.len) e)
    where
      go :
          (found : Result (List HttpRange) Unsatisfied)
          → serve_ranges f method failed unchanged headers found ≡ err index_out_of_bounds
          → found ≡ ok []
      go (err x) e = absurd cc
      go (ok []) e = refl
      go (ok (r ∷ rs)) e = absurd cc

  -- What fails for a tag is a modification time before the epoch.
  etag_of-err :
      (f : NamedFile T) (time : Option SystemTime) (p : Panic)
      → etag_of f time ≡ err p
      → p ≡ modified_before_epoch
  etag_of-err f none p e = absurd cc
  etag_of-err f (some (earlier secs nanos)) p e = cc
  etag_of-err f (some (later secs nanos)) p e = absurd cc

  tag_of-err :
      (c : StaticFileConfig) (f : NamedFile T) (p : Panic)
      → tag_of c f ≡ err p
      → p ≡ modified_before_epoch
  tag_of-err c f p e = elim (Bool-cases c.is_use_etag) [
    | inl tagged ↦ etag_of-err f f.modified p (rw tagged at e)
    | inr none_used ↦ absurd (cc (rw none_used at e))
  ]

-- For a file of less than 2^63 bytes, a request makes the code index an empty list of ranges, which
-- panics, exactly if the file is served with the default status 200, the method is allowed, the tag
-- can be computed, and there is a Range header that is empty, or "bytes=" with blanks and commas
-- only. No If-Match or other condition keeps it from that.
pub respond_to_no_range :
    {T : HeaderTypes} (c : StaticFileConfig) (f : NamedFile T) (req : Conditions T)
    → f.len < 2 ^ 63
    → (respond_to c f req ≡ err index_out_of_bounds) ↔ AsksNothing c f req
unfolding respond_to serve_range serve_ranges
respond_to_no_range {T = T} c f req h = (asks, panics req.range refl)
  where
    modified : Option T.HttpDate
    modified = if c.is_use_last_modifier then last_modified_of T f.modified else none

    asks : respond_to c f req ≡ err index_out_of_bounds → AsksNothing c f req
    asks e = elim (Bool-cases (f.status_code == 200)) [
      | inr other ↦ absurd (cc (rw other at e))
      | inl plain ↦ elim (Bool-cases (c.is_method_allowed req.method)) [
        | inr refused ↦ absurd (cc (rw (plain, refused) at e))
        | inl allowed ↦ elim (Result-cases (tag_of c f)) [
          | inr (p, failed) ↦ absurd (
              let same : p ≡ modified_before_epoch = tag_of-err c f p failed in
              let other : err p ≡ err index_out_of_bounds = rw (plain, allowed, failed) at e in cc)
          | inl (tag, tagged) ↦ (
            ground arith,
            allowed,
            (tag, tagged),
            serve_range_asks f req.method (precondition_failed tag modified req)
                (not_modified tag modified req) (tagged_headers f tag modified) req.range h
                (rw (plain, allowed, tagged) at e),
          )
        ]
      ]
    ]

    panics :
        (range : Option (Option Text))
        → req.range ≡ range
        → AsksNothing c f req
        → respond_to c f req ≡ err index_out_of_bounds
    panics none e (status, allowed, tagged, nothing) = absurd (subst AsksNone e nothing)
    panics (some none) e (status, allowed, tagged, nothing) = absurd (subst AsksNone e nothing)
    panics (some (some range)) e (status, allowed, (tag, tagged), nothing) =
        let plain : (f.status_code == 200) ≡ true = ground arith in
        rw
          (plain, allowed, tagged, e, (parse-eq-nil_iff range f.len h).1 (subst AsksNone e nothing))
          refl
