-- ===== src/Fs/NamedFile.antt =====
-- `NamedFile` of src/fs.rs and its `respond_to`. The types of headers and dates of `actix_http` and
-- `mime` are parameters; a response is its status, what was written to its headers, in order, and
-- its body.
pub mod Conditional
pub mod Sample
pub mod Served
pub mod Setters
pub mod Unchanged
mod Tests
use text.Mathlib.Text.{◌==◌ as str_eq}
use actix_web.Prelude.{
  ℕ, ◌+◌, ◌-◌, ◌%◌, ◌^◌, String, Bool, true, false, not, ◌||◌, Option, none, some, List, [], ◌∷◌,
  ◌++◌, if◌then◌else◌, ◌==◌, Result, ok, err, ◌>>=◌,
}
use actix_web.Prelude.Text.{Text}
use actix_web.Fs.Chunks.{ChunkedReadFile, File, reader}
use actix_web.Fs.Range.{HttpRange, Unsatisfied, parse}

-- What the module takes from `actix_http::http::header` and from `mime`.
pub record HeaderTypes : Type 1 where
  pub Mime : Type 0
  pub ContentDisposition : Type 0
  pub ContentEncoding : Type 0
  pub HttpDate : Type 0
  pub EntityTag : Type 0
  -- `EntityTag::strong(format!("{:x}:{:x}:{:x}:{:x}", ..))`
  pub strong : ℕ → ℕ → ℕ → ℕ → EntityTag
  pub strong_eq : EntityTag → EntityTag → Bool
  pub weak_eq : EntityTag → EntityTag → Bool
  -- `a > b`, and `SystemTime::into`, of seconds and nanoseconds since the epoch or before it
  pub after : HttpDate → HttpDate → Bool
  pub since_epoch : ℕ → ℕ → HttpDate
  pub before_epoch : ℕ → ℕ → HttpDate

-- `SystemTime`, by its distance from `UNIX_EPOCH`.
pub data SystemTime : Type 0 where
  later : ℕ → ℕ → SystemTime
  earlier : ℕ → ℕ → SystemTime

-- `DispositionType` of `actix_http`, as far as the module names it.
pub data DispositionType : Type 0 where
  inline : DispositionType
  attachment : DispositionType

-- `StaticFileConfig`.
pub record StaticFileConfig : Type 0 where
  pub content_disposition_map : String → DispositionType
  pub is_use_etag : Bool
  pub is_use_last_modifier : Bool
  pub is_method_allowed : String → Bool

-- The mapping of `DefaultConfig`, by the names of `mime`.
abbrev pub disposition_of : String → DispositionType
disposition_of typ =
    if str_eq typ "image" || str_eq typ "text" || str_eq typ "video" then inline else attachment

abbrev pub default_config : StaticFileConfig
default_config = record {
  content_disposition_map = disposition_of;
  is_use_etag = true;
  is_use_last_modifier = true;
  is_method_allowed = λ _. true;
}

-- Where `respond_to` panics.
pub data Panic : Type 0 where
  modified_before_epoch : Panic
  index_out_of_bounds : Panic

module _ (T : HeaderTypes) where
  open T use {Mime, ContentDisposition, ContentEncoding, HttpDate, EntityTag}

  -- `NamedFile`; `len` and `ino` are those of its metadata, and `file` its bytes. Its pool
  -- decides how long the tasks of the reader take.
  pub record NamedFile : Type 0 where
    pub content_type : Mime
    pub content_disposition : ContentDisposition
    pub len : ℕ
    pub ino : ℕ
    pub modified : Option SystemTime
    pub encoding : Option ContentEncoding
    pub status_code : ℕ
    pub file : File

  -- `IfMatch` and `IfNoneMatch`.
  pub data Tags : Type 0 where
    any : Tags
    items : List EntityTag → Tags

  -- What `respond_to` reads of the request: its method, what `get_header` makes of the conditional
  -- headers, whether If-None-Match is there at all, and the Range header, with its `to_str`.
  pub record Conditions : Type 0 where
    pub method : String
    pub if_match : Option Tags
    pub if_none_match : Option Tags
    pub has_if_none_match : Bool
    pub if_unmodified_since : Option HttpDate
    pub if_modified_since : Option HttpDate
    pub range : Option (Option Text)

  -- What is written to the headers of a response.
  pub data Header : Type 0 where
    content_type : Mime → Header
    content_type_text : Header
    content_disposition : ContentDisposition → Header
    allow : Header
    last_modified : HttpDate → Header
    etag : EntityTag → Header
    accept_ranges : Header
    content_range : ℕ → ℕ → ℕ → Header
    content_range_unsatisfied : ℕ → Header
    content_length : ℕ → Header

  pub data Body : Type 0 where
    no_body : Body
    message : String → Body
    streaming : ChunkedReadFile → Body

  pub record Response : Type 0 where
    pub status : ℕ
    pub headers : List Header
    pub body : Body

-- `NamedFile::last_modified`, of the modification time.
abbrev pub last_modified_of : (T : HeaderTypes) → Option SystemTime → Option T.HttpDate
last_modified_of T none = none
last_modified_of T (some (later secs nanos)) = some (T.since_epoch secs nanos)
last_modified_of T (some (earlier secs nanos)) = some (T.before_epoch secs nanos)

-- `items.iter().any(|item| eq(item, tag))`, as the two loops below do.
abbrev pub has_tag {ℓ} : {E : Type ℓ} → (E → E → Bool) → List E → E → Bool
has_tag eq [] tag = false
has_tag eq (item ∷ rest) tag = if eq item tag then true else has_tag eq rest tag

-- `if let (Some(ref m), Some(since)) = (..) { test } else { false }`
abbrev pub both {ℓ} : {D : Type ℓ} → (D → D → Bool) → Option D → Option D → Bool
both test (some m) (some since) = test m since
both test (some m) none = false
both test none since = false

module _ {T : HeaderTypes} where
  open T use {Mime, ContentDisposition, HttpDate, EntityTag}

  -- `set_status_code`.
  abbrev pub set_status_code : NamedFile T → ℕ → NamedFile T
  set_status_code f status = record f { status_code = status }

  -- `NamedFile::etag`, of the modification time.
  abbrev pub etag_of : NamedFile T → Option SystemTime → Result (Option EntityTag) Panic
  etag_of f none = ok none
  etag_of f (some (earlier secs nanos)) = err modified_before_epoch
  etag_of f (some (later secs nanos)) = ok (some (T.strong f.ino f.len secs nanos))

  -- `any_match`.
  unfoldable pub any_match : Option EntityTag → Option (Tags T) → Bool
  any_match tag none = true
  any_match tag (some any) = true
  any_match none (some (items list)) = false
  any_match (some tag) (some (items list)) = has_tag T.strong_eq list tag

  -- `none_match`.
  unfoldable pub none_match : Option EntityTag → Option (Tags T) → Bool
  none_match tag none = true
  none_match tag (some any) = false
  none_match none (some (items list)) = true
  none_match (some tag) (some (items list)) = not (has_tag T.weak_eq list tag)

  -- `precondition_failed`.
  unfoldable pub precondition_failed : Option EntityTag → Option HttpDate → Conditions T → Bool
  precondition_failed tag modified req =
      if not (any_match tag req.if_match)
      then true
      else both T.after modified req.if_unmodified_since

  -- `not_modified`.
  unfoldable pub not_modified : Option EntityTag → Option HttpDate → Conditions T → Bool
  not_modified tag modified req =
      if not (none_match tag req.if_none_match)
      then true
      else if req.has_if_none_match
      then false
      else both (λ m since. not (T.after m since)) modified req.if_modified_since

  -- `resp.if_some(value, ..)`.
  abbrev pub if_some : {A : Type 0} → Option A → (A → Header T) → List (Header T)
  if_some none h = []
  if_some (some a) h = h a ∷ []

  -- The headers that a response of a served file begins with.
  abbrev pub file_headers : NamedFile T → List (Header T)
  file_headers f = content_type f.content_type ∷ content_disposition f.content_disposition ∷ []

  abbrev pub tagged_headers : NamedFile T → Option EntityTag → Option HttpDate → List (Header T)
  tagged_headers f tag modified =
      file_headers f ++ (if_some modified last_modified ++ (if_some tag etag ++ accept_ranges ∷ []))

  abbrev pub respond : ℕ → List (Header T) → Body T → Response T
  respond status headers body = record { status = status; headers = headers; body = body }

  -- The end of `respond_to`, for `length` bytes from `offset`.
  unfoldable pub serve : NamedFile T → String → Bool → Bool → List (Header T) → ℕ → ℕ → Response T
  serve f method failed unchanged headers length offset =
      let headers' = headers ++ content_length length ∷ [] in
      if failed
      then respond 412 headers' no_body
      else if unchanged
      then respond 304 headers' no_body
      else if str_eq method "HEAD"
      then respond 200 headers' no_body
      else if not (offset == 0) || not (length == f.len)
      then respond 206 headers' (streaming (reader offset length f.file))
      else respond 200 headers' (streaming (reader offset length f.file))

  -- What `HttpRange::parse` returned; the last byte's position is computed in `u64`, where a release
  -- build wraps (a debug build panics when a range with no bytes starts the file).
  unfoldable pub serve_ranges :
      NamedFile T
      → String
      → Bool
      → Bool
      → List (Header T)
      → Result (List HttpRange) Unsatisfied
      → Result (Response T) Panic
  unfolding serve
  serve_ranges f method failed unchanged headers (err _) =
      ok (respond 416 (headers ++ content_range_unsatisfied f.len ∷ []) no_body)
  serve_ranges f method failed unchanged headers (ok []) = err index_out_of_bounds
  serve_ranges f method failed unchanged headers (ok (r ∷ _)) =
      let last = (r.start + r.length + 2 ^ 64 - 1) % 2 ^ 64 in
      ok (
        serve f method failed unchanged (headers ++ content_range r.start last f.len ∷ []) r.length
          r.start)

  -- From the Range header on.
  unfoldable pub serve_range :
      NamedFile T
      → String
      → Bool
      → Bool
      → List (Header T)
      → Option (Option Text)
      → Result (Response T) Panic
  unfolding serve_ranges
  serve_range f method failed unchanged headers none =
      ok (serve f method failed unchanged headers f.len 0)
  serve_range f method failed unchanged headers (some none) = ok (respond 400 headers no_body)
  serve_range f method failed unchanged headers (some (some range)) =
      serve_ranges f method failed unchanged headers (parse range f.len)

  -- From the tags on.
  abbrev pub respond_tagged :
      NamedFile T → Conditions T → Option HttpDate → Option EntityTag → Result (Response T) Panic
  respond_tagged f req modified tag =
      serve_range f req.method (precondition_failed tag modified req)
        (not_modified tag modified req) (tagged_headers f tag modified) req.range

  -- `Responder::respond_to` of `NamedFile`.
  unfoldable pub respond_to :
      StaticFileConfig → NamedFile T → Conditions T → Result (Response T) Panic
  unfolding precondition_failed not_modified serve_range
  respond_to c f req =
      if not (f.status_code == 200)
      then ok (respond f.status_code (file_headers f) (streaming (reader 0 f.len f.file)))
      else if not (c.is_method_allowed req.method)
      then ok (
          respond 405 (content_type_text ∷ allow ∷ [])
            (message "This resource only supports GET and HEAD."))
      else ((if c.is_use_etag then etag_of f f.modified else ok none)
          >>= respond_tagged f req
              (if c.is_use_last_modifier then last_modified_of T f.modified else none))
