-- ===== src/Fs/NamedFile/Conditional.antt =====
-- The conditional requests that `NamedFile::respond_to` (src/fs.rs) answers.
use mathlib.Core.Path.{fun_ext}
use actix_web.Prelude.{
  ℕ, ◌≡◌, ap, ◌∙◌, refl, Bool, true, false, not, Option, none, some, List, [], ◌∷◌, ◌++◌, ok, err,
  Result, arith, Bool-cases, inl, inr, Result-cases, if◌then◌else◌, ◌==◌, ◌>>=◌, String,
}
use actix_web.Prelude.Text.{Text}
use actix_web.Fs.Chunks.{reader}
use actix_web.Fs.Range.{parse, HttpRange, Unsatisfied}
use actix_web.Fs.NamedFile.{
  HeaderTypes, StaticFileConfig, NamedFile, Conditions, Response, Header, no_body, message,
  streaming, Panic, respond_to, respond_tagged, serve, serve_range, serve_ranges, last_modified_of,
  precondition_failed, not_modified, any_match, none_match, has_tag, items, respond, tagged_headers,
  content_length, file_headers, content_type_text, allow,
}
use actix_web.Fs.NamedFile.Served.{tag_of}

module _ {T : HeaderTypes} where
  abbrev modified_of : StaticFileConfig → NamedFile T → Option T.HttpDate
  modified_of c f = if c.is_use_last_modifier then last_modified_of T f.modified else none

  -- `respond_to`, where it comes to the tags.
  respond_to_tagged :
      (c : StaticFileConfig) (f : NamedFile T) (req : Conditions T) (tag : Option T.EntityTag)
      → f.status_code ≡ 200
      → c.is_method_allowed req.method ≡ true
      → tag_of c f ≡ ok tag
      → respond_to c f req ≡ respond_tagged f req (modified_of c f) tag
  unfolding respond_to
  respond_to_tagged c f req tag status allowed tagged =
      let plain : (f.status_code == 200) ≡ true = ground arith in rw (plain, allowed, tagged) refl

  not_modified_ignores :
      (tag : Option T.EntityTag) (modified : Option T.HttpDate) (req : Conditions T)
      (since : Option T.HttpDate)
      → req.has_if_none_match ≡ true
      → not_modified tag modified (record req { if_modified_since = since })
        ≡ not_modified tag modified req
  unfolding not_modified
  not_modified_ignores tag modified req since h = rw h refl

-- For a file served with the default status and its tag, an allowed request with no Range and no
-- precondition whose If-None-Match holds a weak match for the tag is answered by 304 with no body,
-- whatever its If-Modified-Since says.
pub respond_to_cached :
    {T : HeaderTypes} (c : StaticFileConfig) (f : NamedFile T) (req : Conditions T)
    (tag : T.EntityTag) (list : List T.EntityTag)
    → f.status_code ≡ 200
    → c.is_method_allowed req.method ≡ true
    → tag_of c f ≡ ok (some tag)
    → req.range ≡ none
    → req.if_match ≡ none
    → req.if_unmodified_since ≡ none
    → req.if_none_match ≡ some (items list)
    → has_tag T.weak_eq list tag ≡ true
    → respond_to c f req
      ≡ ok (
          respond 304
            (tagged_headers f (some tag) (modified_of c f) ++ content_length f.len ∷ [])
            no_body)
unfolding respond_to serve any_match none_match
respond_to_cached {T = T} c f req tag list status allowed tagged range im ius inm matched =
    respond_to_tagged c f req (some tag) status allowed tagged ∙ go (modified_of c f)
  where
    go :
        (modified : Option T.HttpDate)
        → respond_tagged f req modified (some tag)
          ≡ ok (
              respond 304
                (tagged_headers f (some tag) modified ++ content_length f.len ∷ [])
                no_body)
    go none = rw (range, im, inm, matched) refl
    go (some m) = rw (range, im, ius, inm, matched) refl

-- For a file served with the default status and its tag, an allowed request with no Range whose
-- If-Match lists no strong match for the tag is answered by 412 with no body, whatever its other
-- conditions say.
pub respond_to_stale :
    {T : HeaderTypes} (c : StaticFileConfig) (f : NamedFile T) (req : Conditions T)
    (tag : T.EntityTag) (list : List T.EntityTag)
    → f.status_code ≡ 200
    → c.is_method_allowed req.method ≡ true
    → tag_of c f ≡ ok (some tag)
    → req.range ≡ none
    → req.if_match ≡ some (items list)
    → has_tag T.strong_eq list tag ≡ false
    → respond_to c f req
      ≡ ok (
          respond 412
            (tagged_headers f (some tag) (modified_of c f) ++ content_length f.len ∷ [])
            no_body)
unfolding respond_to serve any_match
respond_to_stale c f req tag list status allowed tagged range im matched =
    respond_to_tagged c f req (some tag) status allowed tagged ∙ rw (range, im, matched) refl

-- Where If-None-Match is there, If-Modified-Since is not read: the answer is the same for every
-- value of it, and for none.
pub respond_to_ignores :
    {T : HeaderTypes} (c : StaticFileConfig) (f : NamedFile T) (req : Conditions T)
    (since : Option T.HttpDate)
    → req.has_if_none_match ≡ true
    → respond_to c f (record req { if_modified_since = since }) ≡ respond_to c f req
unfolding respond_to
respond_to_ignores c f req since h =
    ap
      (λ k.
        if not (f.status_code == 200)
        then ok (respond f.status_code (file_headers f) (streaming (reader 0 f.len f.file)))
        else if not (c.is_method_allowed req.method)
        then ok (
            respond 405 (content_type_text ∷ allow ∷ [])
              (message "This resource only supports GET and HEAD."))
        else (tag_of c f >>= k))
      (fun_ext λ tag.
        ap
          (λ unchanged.
            serve_range f req.method (precondition_failed tag (modified_of c f) req) unchanged
              (tagged_headers f tag (modified_of c f)) req.range)
          (not_modified_ignores tag (modified_of c f) req since h))

abbrev pub headers_of :
    {T : HeaderTypes} → Result (Response T) Panic → Result (List (Header T)) Panic
headers_of (ok resp) = ok resp.headers
headers_of (err p) = err p

serve_headers :
    {T : HeaderTypes} (f : NamedFile T) (method method' : String) (failed unchanged : Bool)
    (headers : List (Header T)) (n offset : ℕ)
    → (serve f method failed unchanged headers n offset).headers
      ≡ (serve f method' failed unchanged headers n offset).headers
unfolding serve
serve_headers f method method' failed unchanged headers n offset = ground arith

serve_ranges_headers :
    {T : HeaderTypes} (f : NamedFile T) (method method' : String) (failed unchanged : Bool)
    (headers : List (Header T)) (found : Result (List HttpRange) Unsatisfied)
    → headers_of (serve_ranges f method failed unchanged headers found)
      ≡ headers_of (serve_ranges f method' failed unchanged headers found)
unfolding serve_ranges
serve_ranges_headers f method method' failed unchanged headers (err e) = refl
serve_ranges_headers f method method' failed unchanged headers (ok []) = refl
serve_ranges_headers f method method' failed unchanged headers (ok (r ∷ rs)) =
    ap ok (serve_headers f method method' failed unchanged _ r.length r.start)

serve_range_headers :
    {T : HeaderTypes} (f : NamedFile T) (method method' : String) (failed unchanged : Bool)
    (headers : List (Header T)) (range : Option (Option Text))
    → headers_of (serve_range f method failed unchanged headers range)
      ≡ headers_of (serve_range f method' failed unchanged headers range)
unfolding serve_range
serve_range_headers f method method' failed unchanged headers none =
    ap ok (serve_headers f method method' failed unchanged headers f.len 0)
serve_range_headers f method method' failed unchanged headers (some none) = refl
serve_range_headers f method method' failed unchanged headers (some (some range)) =
    serve_ranges_headers f method method' failed unchanged headers (parse range f.len)

-- A request by HEAD gets the headers that the same request by any other allowed method gets.
pub respond_to-head :
    {T : HeaderTypes} (c : StaticFileConfig) (f : NamedFile T) (req : Conditions T) (m : String)
    → c.is_method_allowed m ≡ true
    → c.is_method_allowed "HEAD" ≡ true
    → headers_of (respond_to c f (record req { method = "HEAD" }))
      ≡ headers_of (respond_to c f (record req { method = m }))
unfolding respond_to
respond_to-head c f req m h k = elim (Bool-cases (f.status_code == 200)) [
  | inr other ↦ rw other refl
  | inl plain ↦ elim (Result-cases (tag_of c f)) [
    | inr (p, failed) ↦ rw (plain, h, k, failed) refl
    | inl (tag, tagged) ↦
        rw (plain, h, k, tagged)
          (serve_range_headers f "HEAD" m (precondition_failed tag (modified_of c f) req)
            (not_modified tag (modified_of c f) req) (tagged_headers f tag (modified_of c f))
            req.range)
  ]
]
