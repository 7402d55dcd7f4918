-- ===== src/Extractor/Payload.antt =====
-- src/extractor.rs: the extractors of the path, of the query and of the body, their configuration,
-- and those that make a failure into a value. What `actix_http` and serde do is the record Bodies
-- and the decoders, parameters.
pub mod Text
mod Tests
use actix_web.Prelude.{
  ℕ, Bool, not, Option, none, some, String, Result, ok, err, List, if◌then◌else◌, ◌>>=◌,
}
use actix_web.Futures.{Fut, now, later, spent}
use actix_web.Futures.Combinators.{Combinators, and_then, map_item, map_err}
use actix_web.Http.{HttpRequest, HttpTypes, ServiceRequest, query_string}
use actix_web.Handler.{Responder, FromRequest}
use actix_web.Responder.{Responses}

-- `HttpMessage` and the futures of a body, of `actix_http`, with the error conversions.
pub record Bodies (H : HttpTypes) (P : Type 0) : Type 1 where
  pub Mime : Type 0
  pub mime_eq : Mime → Mime → Bool
  pub Encoding : Type 0
  -- `enc == UTF_8`
  pub is_utf8 : Encoding → Bool
  pub from_utf8 : List ℕ → Option String
  pub decode_strict : Encoding → List ℕ → Option String
  pub ContentTypeError : Type 0
  pub PayloadError : Type 0
  pub UrlencodedError : Type 0
  pub JsonPayloadError : Type 0
  pub mime_type : HttpRequest → Result (Option Mime) ContentTypeError
  pub encoding : HttpRequest → Result Encoding ContentTypeError
  -- `ErrorBadRequest(..)`
  pub bad_request : String → H.Error
  pub from_content_type : ContentTypeError → H.Error
  pub from_payload : PayloadError → H.Error
  pub from_urlencoded : UrlencodedError → H.Error
  pub from_json : JsonPayloadError → H.Error
  -- `MessageBody::new(req).limit(limit)`; `new` may take the payload.
  pub message_body : ServiceRequest P → ℕ → Fut (List ℕ) PayloadError × ServiceRequest P
  -- `UrlEncoded::new(req).limit(limit)` and `JsonBody::new(req).limit(limit)`, of the types that
  -- serde deserializes.
  pub Decoded : Type 0
  pub url_encoded : ServiceRequest P → ℕ → Fut Decoded UrlencodedError × ServiceRequest P
  pub json_body : ServiceRequest P → ℕ → Fut Decoded JsonPayloadError × ServiceRequest P

pub record PathOf (T : Type 0) : Type 0 where
  pub inner : T

pub record Query (T : Type 0) : Type 0 where
  pub inner : T

pub record Form (T : Type 0) : Type 0 where
  pub inner : T

pub record Json (T : Type 0) : Type 0 where
  pub inner : T

-- `FormConfig` and `JsonConfig`, by the error that their handler is given.
pub record BodyConfig (E F : Type 0) : Type 0 where
  pub limit : ℕ
  pub ehandler : E → HttpRequest → F

abbrev pub set_limit : {E F : Type 0} → ℕ → BodyConfig E F → BodyConfig E F
set_limit limit cfg = record cfg { limit = limit }

abbrev pub error_handler : {E F : Type 0} → (E → HttpRequest → F) → BodyConfig E F → BodyConfig E F
error_handler f cfg = record cfg { ehandler = f }

-- `FormConfig::default` and `JsonConfig::default`.
abbrev pub default_config : {E F : Type 0} → (E → F) → BodyConfig E F
default_config into = record { limit = 262144; ehandler = λ e req. into e }

pub record PayloadConfig (Mime : Type 0) : Type 0 where
  pub limit : ℕ
  pub mimetype : Option Mime

abbrev pub payload_limit : {Mime : Type 0} → ℕ → PayloadConfig Mime → PayloadConfig Mime
payload_limit limit cfg = record cfg { limit = limit }

abbrev pub require_mimetype : {Mime : Type 0} → Mime → PayloadConfig Mime → PayloadConfig Mime
require_mimetype mt cfg = record cfg { mimetype = some mt }

abbrev pub default_payload : {Mime : Type 0} → PayloadConfig Mime
default_payload = record { limit = 262144; mimetype = none }

-- `Path<T>`; the decoder is `Deserialize::deserialize(PathDeserializer::new(req.match_info()))`.
abbrev pub extract_path :
    {T E : Type 0} → (HttpRequest → Result T E) → HttpRequest → Result (PathOf T) E
extract_path decode req = decode req >>= λ v. ok (record { inner = v })

abbrev pub into_result : {T E F : Type 0} → (E → F) → Result T E → Result T F
into_result into (ok v) = ok v
into_result into (err e) = err (into e)

abbrev pub query_result : {T E F : Type 0} → (E → F) → Result T E → Result (Query T) F
query_result into (ok v) = ok (record { inner = v })
query_result into (err e) = err (into e)

abbrev pub to_option : {T E F : Type 0} → Result T E → Result (Option T) F
to_option (ok v) = ok (some v)
to_option (err e) = ok none

module _ {H : HttpTypes} {P : Type 0} where
  abbrev pub path :
      {T E : Type 0} → (HttpRequest → Result T E) → (E → H.Error) → FromRequest H P (PathOf T)
  path decode error_not_found = record {
    Error = H.Error;
    into = λ e. e;
    from_request = λ req. (now (into_result error_not_found (extract_path decode req.req)), req);
  }

  -- `Query<T>`; the decoder is `serde_urlencoded::from_str`.
  abbrev pub query :
      {T E : Type 0} → (String → Result T E) → (E → H.Error) → FromRequest H P (Query T)
  query from_str into = record {
    Error = H.Error;
    into = λ e. e;
    from_request = λ req. (now (query_result into (from_str (query_string req.req))), req);
  }

  abbrev pub unit : FromRequest H P (Unit {0})
  unit = record { Error = H.Error; into = λ e. e; from_request = λ req. (now (ok tt), req) }

  -- `HttpRequest`.
  abbrev pub whole_request : FromRequest H P HttpRequest
  whole_request = record {
    Error = H.Error;
    into = λ e. e;
    from_request = λ req. (now (ok req.req), req);
  }

  -- `Option<T>`.
  abbrev pub option : {T : Type 0} → Combinators → FromRequest H P T → FromRequest H P (Option T)
  option {T} C t = record {
    Error = H.Error;
    into = λ e. e;
    from_request = λ req.
        let (fut, req') = t.from_request req in
        (C.chain T (Option T) t.Error H.Error fut (λ r. now (to_option r)), req');
  }

  -- `Result<T, T::Error>`.
  abbrev pub result :
      {T : Type 0} → Combinators → (t : FromRequest H P T) → FromRequest H P (Result T t.Error)
  result {T} C t = record {
    Error = H.Error;
    into = λ e. e;
    from_request = λ req.
        let (fut, req') = t.from_request req in
        (C.chain T (Result T t.Error) t.Error H.Error fut (λ r. now (ok r)), req');
  }

-- `Responder` of `Json<T>`; the encoder is `serde_json::to_string`.
abbrev pub json_respond :
    {H : HttpTypes} {E : Type 0}
    → Responses H
    → (E → H.Error)
    → Result String E
    → Result H.Response H.Error
json_respond R into (ok body) = ok (R.with_text 200 "application/json" body)
json_respond R into (err e) = err (into e)

abbrev pub json_responder :
    {H : HttpTypes} {T E : Type 0}
    → Responses H
    → (T → Result String E)
    → (E → H.Error)
    → Responder H (Json T)
json_responder {H} R to_string into = record {
  Error = H.Error;
  into = λ e. e;
  respond_to = λ v req. now (json_respond R into (to_string v.inner));
}

module _ {H : HttpTypes} {P : Type 0} (B : Bodies H P) where
  -- `PayloadConfig::check_mimetype`.
  abbrev pub compare_mimetype :
      B.Mime → Result (Option B.Mime) B.ContentTypeError → Result (Unit {0}) H.Error
  compare_mimetype mt (ok (some req_mt)) =
      if not (B.mime_eq mt req_mt) then err (B.bad_request "Unexpected Content-Type") else ok tt
  compare_mimetype mt (ok none) = err (B.bad_request "Content-Type is expected")
  compare_mimetype mt (err e) = err (B.from_content_type e)

  unfoldable pub check_mimetype :
      PayloadConfig B.Mime → ServiceRequest P → Result (Unit {0}) H.Error
  check_mimetype cfg req = elim cfg.mimetype [
    | some mt ↦ compare_mimetype mt (B.mime_type req.req)
    | none ↦ ok tt
  ]

  -- `str::from_utf8` or the decoder of the encoding.
  abbrev pub or_bad_request : Option String → Result String H.Error
  or_bad_request (some s) = ok s
  or_bad_request none = err (B.bad_request "Can not decode body")

  abbrev pub decode_body : B.Encoding → List ℕ → Result String H.Error
  decode_body enc body =
      or_bad_request (if B.is_utf8 enc then B.from_utf8 body else B.decode_strict enc body)

module _ {H : HttpTypes} {P : Type 0} (C : Combinators) (B : Bodies H P) where
  -- `Form<T>`: the error handler is given the request as it was.
  abbrev pub form : FromRequest H P (Form B.Decoded)
  form = record {
    Error = H.Error;
    into = λ e. e;
    from_request = λ req.
        let cfg = default_config B.from_urlencoded in
        let (fut, req') = B.url_encoded req cfg.limit in
        (
          map_item C (map_err C fut (λ e. cfg.ehandler e req.req)) (λ v. record { inner = v }),
          req',
        );
  }

  -- `Json<T>`.
  abbrev pub json : FromRequest H P (Json B.Decoded)
  json = record {
    Error = H.Error;
    into = λ e. e;
    from_request = λ req.
        let cfg = default_config B.from_json in
        let (fut, req') = B.json_body req cfg.limit in
        (
          map_item C (map_err C fut (λ e. cfg.ehandler e req.req)) (λ v. record { inner = v }),
          req',
        );
  }

  abbrev pub read_body :
      PayloadConfig B.Mime → ServiceRequest P → Fut (List ℕ) H.Error × ServiceRequest P
  read_body cfg req =
      let (fut, req') = B.message_body req cfg.limit in (map_err C fut B.from_payload, req')

  abbrev pub bytes_checked :
      PayloadConfig B.Mime
      → ServiceRequest P
      → Result (Unit {0}) H.Error
      → Fut (List ℕ) H.Error × ServiceRequest P
  bytes_checked cfg req (err e) = (now (err e), req)
  bytes_checked cfg req (ok u) = read_body cfg req

  -- `Bytes`, whose configuration is the default one.
  abbrev pub bytes_with :
      PayloadConfig B.Mime → ServiceRequest P → Fut (List ℕ) H.Error × ServiceRequest P
  bytes_with cfg req = bytes_checked cfg req (check_mimetype B cfg req)

  abbrev pub bytes : FromRequest H P (List ℕ)
  bytes = record { Error = H.Error; into = λ e. e; from_request = bytes_with default_payload }

  abbrev pub string_encoded :
      PayloadConfig B.Mime
      → ServiceRequest P
      → Result B.Encoding B.ContentTypeError
      → Fut String H.Error × ServiceRequest P
  string_encoded cfg req (err e) = (now (err (B.from_content_type e)), req)
  string_encoded cfg req (ok enc) =
      let (fut, req') = read_body cfg req in
      (and_then C fut (λ body. now (decode_body B enc body)), req')

  abbrev pub string_checked :
      PayloadConfig B.Mime
      → ServiceRequest P
      → Result (Unit {0}) H.Error
      → Fut String H.Error × ServiceRequest P
  string_checked cfg req (err e) = (now (err e), req)
  string_checked cfg req (ok u) = string_encoded cfg req (B.encoding req.req)

  -- `String`.
  unfoldable pub string_with :
      PayloadConfig B.Mime → ServiceRequest P → Fut String H.Error × ServiceRequest P
  string_with cfg req = string_checked cfg req (check_mimetype B cfg req)

  abbrev pub string : FromRequest H P String
  string = record { Error = H.Error; into = λ e. e; from_request = string_with default_payload }
