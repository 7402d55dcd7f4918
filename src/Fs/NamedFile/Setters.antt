-- ===== src/Fs/NamedFile/Setters.antt =====
-- The setters of `NamedFile` (src/fs.rs), and what they change of a response.
use text.Mathlib.Text.{◌==◌ as str_eq}
use actix_web.Prelude.{
  ℕ, ◌+◌, ◌-◌, ◌%◌, ◌^◌, String, Bool, true, false, not, ◌||◌, Option, none, some, List, [], ◌∷◌,
  ◌++◌, map, ◌==◌, ◌≡◌, refl, sym, ap, ◌∙◌, Result, ok, err, ◌>>=◌, Bool-cases, inl, inr,
  if◌then◌else◌,
}
use actix_web.Prelude.Text.{Text}
use actix_web.Fs.Chunks.{reader}
use actix_web.Fs.Range.{HttpRange, Unsatisfied, parse}
use actix_web.Fs.NamedFile.{
  HeaderTypes, StaticFileConfig, NamedFile, Conditions, Header, Response, Panic, SystemTime, later,
  earlier, content_type, content_disposition, content_length, respond, no_body, streaming, serve,
  serve_ranges, serve_range, respond_tagged, tagged_headers, etag_of, respond_to, content_range,
  content_range_unsatisfied, precondition_failed, not_modified, last_modified_of,
}

module _ {T : HeaderTypes} where
  open T use {Mime, ContentDisposition, ContentEncoding, HttpDate, EntityTag}

  -- `set_content_type`, `set_content_disposition` and `set_content_encoding`.
  abbrev pub set_content_type : NamedFile T → Mime → NamedFile T
  set_content_type f mime_type = record f { content_type = mime_type }

  abbrev pub set_content_disposition : NamedFile T → ContentDisposition → NamedFile T
  set_content_disposition f cd = record f { content_disposition = cd }

  abbrev pub set_content_encoding : NamedFile T → ContentEncoding → NamedFile T
  set_content_encoding f enc = record f { encoding = some enc }

  abbrev pub set_all : NamedFile T → Mime → ContentDisposition → ContentEncoding → NamedFile T
  set_all f m cd enc = set_content_encoding (set_content_disposition (set_content_type f m) cd) enc

  -- A header of another type and disposition, of a response and of what `respond_to` gives.
  abbrev pub retyped : Mime → ContentDisposition → Header T → Header T
  retyped m cd (content_type m') = content_type m
  retyped m cd (content_disposition cd') = content_disposition cd
  retyped m cd h = h

  abbrev pub retyped_response : Mime → ContentDisposition → Response T → Response T
  retyped_response m cd r = record r { headers = map (retyped m cd) r.headers }

  abbrev pub retyped_result :
      Mime → ContentDisposition → Result (Response T) Panic → Result (Response T) Panic
  retyped_result m cd (ok r) = ok (retyped_response m cd r)
  retyped_result m cd (err e) = err e

map-append : {A B : Type 0} (h : A → B) (xs ys : List A) → map h (xs ++ ys) ≡ map h xs ++ map h ys
map-append h [] ys = refl
map-append h (x ∷ xs) ys = ap (λ zs. h x ∷ zs) (map-append h xs ys)

module _ {T : HeaderTypes} (f : NamedFile T) (m : T.Mime) (cd : T.ContentDisposition)
    (enc : T.ContentEncoding) where
  -- One more header, which is of another kind.
  with_length :
      (hs : List (Header T)) (length : ℕ)
      → map (retyped m cd) hs ++ content_length length ∷ []
        ≡ map (retyped m cd) (hs ++ content_length length ∷ [])
  with_length hs length = sym (map-append (retyped m cd) hs (content_length length ∷ []))

  serve-retyped :
      (method : String) (failed unchanged : Bool) (hs : List (Header T)) (length offset : ℕ)
      → serve (set_all f m cd enc) method failed unchanged (map (retyped m cd) hs) length offset
        ≡ retyped_response m cd (serve f method failed unchanged hs length offset)
  unfolding serve
  serve-retyped method true unchanged hs length offset =
      ap (λ hs. respond 412 hs no_body) (with_length hs length)
  serve-retyped method false true hs length offset =
      ap (λ hs. respond 304 hs no_body) (with_length hs length)
  serve-retyped method false false hs length offset = elim (Bool-cases (str_eq method "HEAD")) [
    | inl head ↦ rw head (ap (λ hs. respond 200 hs no_body) (with_length hs length))
    | inr other ↦ elim (Bool-cases (not (offset == 0) || not (length == f.len))) [
      | inl part ↦
          rw (other, part)
            (ap (λ hs. respond 206 hs (streaming (reader offset length f.file)))
              (with_length hs length))
      | inr whole ↦
          rw (other, whole)
            (ap (λ hs. respond 200 hs (streaming (reader offset length f.file)))
              (with_length hs length))
    ]
  ]

  serve_ranges-retyped :
      (method : String) (failed unchanged : Bool) (hs : List (Header T))
      (ranges : Result (List HttpRange) Unsatisfied)
      → serve_ranges (set_all f m cd enc) method failed unchanged (map (retyped m cd) hs) ranges
        ≡ retyped_result m cd (serve_ranges f method failed unchanged hs ranges)
  unfolding serve_ranges
  serve_ranges-retyped method failed unchanged hs (err e) =
      ap (λ hs. ok (respond 416 hs no_body))
        (sym (map-append (retyped m cd) hs (content_range_unsatisfied f.len ∷ [])))
  serve_ranges-retyped method failed unchanged hs (ok []) = refl
  serve_ranges-retyped method failed unchanged hs (ok (r ∷ rs)) =
      let last = (r.start + r.length + 2 ^ 64 - 1) % 2 ^ 64 in
      ap (λ hs. ok (serve (set_all f m cd enc) method failed unchanged hs r.length r.start))
        (sym (map-append (retyped m cd) hs (content_range r.start last f.len ∷ [])))
      ∙ ap ok (
          serve-retyped method failed unchanged (hs ++ content_range r.start last f.len ∷ [])
            r.length r.start)

  serve_range-retyped :
      (method : String) (failed unchanged : Bool) (hs : List (Header T))
      (range : Option (Option Text))
      → serve_range (set_all f m cd enc) method failed unchanged (map (retyped m cd) hs) range
        ≡ retyped_result m cd (serve_range f method failed unchanged hs range)
  unfolding serve_range
  serve_range-retyped method failed unchanged hs none =
      ap ok (serve-retyped method failed unchanged hs f.len 0)
  serve_range-retyped method failed unchanged hs (some none) = refl
  serve_range-retyped method failed unchanged hs (some (some range)) =
      serve_ranges-retyped method failed unchanged hs (parse range f.len)

  tagged_headers-retyped :
      (tag : Option T.EntityTag) (modified : Option T.HttpDate)
      → tagged_headers (set_all f m cd enc) tag modified
        ≡ map (retyped m cd) (tagged_headers f tag modified)
  tagged_headers-retyped none none = refl
  tagged_headers-retyped none (some d) = refl
  tagged_headers-retyped (some tag) none = refl
  tagged_headers-retyped (some tag) (some d) = refl

  etag_same :
      (modified : Option SystemTime) → etag_of (set_all f m cd enc) modified ≡ etag_of f modified
  etag_same none = refl
  etag_same (some (later secs nanos)) = refl
  etag_same (some (earlier secs nanos)) = refl

  respond_tagged-retyped :
      (req : Conditions T) (modified : Option T.HttpDate) (tag : Option T.EntityTag)
      → respond_tagged (set_all f m cd enc) req modified tag
        ≡ retyped_result m cd (respond_tagged f req modified tag)
  respond_tagged-retyped req modified tag =
      ap
        (λ hs.
          serve_range (set_all f m cd enc) req.method (precondition_failed tag modified req)
            (not_modified tag modified req) hs req.range)
        (tagged_headers-retyped tag modified)
      ∙ serve_range-retyped req.method (precondition_failed tag modified req)
          (not_modified tag modified req) (tagged_headers f tag modified) req.range

  tags_retyped :
      (req : Conditions T) (modified : Option T.HttpDate) (tags : Result (Option T.EntityTag) Panic)
      → (tags >>= respond_tagged (set_all f m cd enc) req modified)
        ≡ retyped_result m cd (tags >>= respond_tagged f req modified)
  tags_retyped req modified (ok tag) = respond_tagged-retyped req modified tag
  tags_retyped req modified (err e) = refl

-- The setters of a file change its type and its disposition in every response that carries them,
-- whatever the request asks for, and nothing else of any response: the encoding that is set is not
-- in it.
pub respond_to-set_all :
    {T : HeaderTypes} (c : StaticFileConfig) (f : NamedFile T) (m : T.Mime)
    (cd : T.ContentDisposition) (enc : T.ContentEncoding) (req : Conditions T)
    → respond_to c (set_all f m cd enc) req ≡ retyped_result m cd (respond_to c f req)
unfolding respond_to
respond_to-set_all {T} c f m cd enc req = elim (Bool-cases (f.status_code == 200)) [
  | inr other ↦ rw other refl
  | inl plain ↦ elim (Bool-cases (c.is_method_allowed req.method)) [
    | inr refused ↦ rw (plain, refused) refl
    | inl allowed ↦
        rw (plain, allowed)
          (ap (λ tags. tags >>= respond_tagged (set_all f m cd enc) req modified)
              (tags_same (c.is_use_etag))
            ∙ tags_retyped f m cd enc req modified
                (if c.is_use_etag then etag_of f f.modified else ok none))
  ]
]
  where
    modified : Option T.HttpDate
    modified = if c.is_use_last_modifier then last_modified_of T f.modified else none

    tags_same :
        (b : Bool)
        → (if b then etag_of (set_all f m cd enc) f.modified else ok none)
          ≡ (if b then etag_of f f.modified else ok none)
    tags_same true = etag_same f m cd enc f.modified
    tags_same false = refl
