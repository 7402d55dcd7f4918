-- ===== src/Http.antt =====
-- What the services exchange: src/request.rs and src/service.rs, over the types of `actix_http`
-- and `actix_router`, which are parameters.
use actix_web.Prelude.{Option, none, some, String}
use actix_web.Prelude.Text.{Text}

-- `HttpRequest`. Its header map and its URI are only read: `header name` is `headers().get(name)`,
-- `query` is `uri().query()`, and `match_path` is `match_info().path()`.
pub record HttpRequest : Type 0 where
  pub method : String
  pub path : String
  pub query : Option String
  pub header : String → Option Text
  pub match_path : Text

-- `HttpRequest::query_string`.
pub query_string : HttpRequest → String
query_string req = elim req.query [ some query ↦ query | none ↦ "" ]

-- `actix_http::Payload`: `Payload::None`, or a stream.
pub data Payload {ℓ} (P : Type ℓ) : Type ℓ where
  absent : Payload P
  stream : P → Payload P

pub record ServiceRequest {ℓ} (P : Type ℓ) : Type ℓ where
  pub req : HttpRequest
  pub payload : Payload P

abbrev pub into_request {ℓ} : {P : Type ℓ} → ServiceRequest P → HttpRequest
into_request r = r.req

-- `HttpMessage::take_payload` of a `ServiceRequest`: the payload, and the request without it.
pub take_payload {ℓ} : {P : Type ℓ} → ServiceRequest P → Payload P × ServiceRequest P
take_payload r = (r.payload, record r { payload = absent })

-- `HttpMessage::take_payload` of an `HttpRequest`, which has none.
abbrev pub take_request_payload {ℓ} : {P : Type ℓ} → HttpRequest → Payload P × HttpRequest
take_request_payload req = (absent, req)

-- `Response`, `Error` and the conversion of an error, of `actix_http`.
pub record HttpTypes : Type 1 where
  pub Response : Type 0
  pub Error : Type 0
  -- `Response::NotFound().finish()`
  pub not_found : Response
  -- `err.into().into()`
  pub from_error : Error → Response

module _ (H : HttpTypes) where
  open H use {Response, Error, from_error}

  pub record ServiceResponse : Type 0 where
    pub request : HttpRequest
    pub response : Response

  abbrev pub new_response : HttpRequest → Response → ServiceResponse
  new_response request response = record { request = request; response = response }

  -- `ServiceRequest::into_response`.
  pub into_response {ℓ} : {P : Type ℓ} → ServiceRequest P → Response → ServiceResponse
  into_response r res = new_response r.req res

  -- `ServiceRequest::error_response`.
  unfoldable pub error_response {ℓ} : {P : Type ℓ} → ServiceRequest P → Error → ServiceResponse
  error_response r e = new_response r.req (from_error e)
