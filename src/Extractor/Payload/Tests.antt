-- ===== src/Extractor/Payload/Tests.antt =====
-- Bodies of requests (src/extractor.rs), as texts and as bytes, of handlers of one argument and of two.
use text.Mathlib.Text.{◌==◌ as str_eq}
use actix_web.Prelude.{
  ℕ, ◌≡◌, refl, Bool, true, none, some, Option, ok, err, String, List, [], ◌∷◌, ◌+◌, ◌≤◌, length,
  arith,
}
use actix_web.Prelude.Text.{codes}
use actix_web.Futures.{Fut, after, now}
use actix_web.Futures.Direct.{direct}
use actix_web.Http.{
  HttpTypes, ServiceRequest, ServiceResponse, new_response, error_response, absent, stream,
}
use actix_web.Handler.{Responder, FromRequest}
use actix_web.Handler.Pipeline.{pipeline}
use actix_web.Extractor.Payload.{
  Bodies, default_payload, require_mimetype, check_mimetype, string_with, bytes_with, option,
}
use actix_web.Extractor.Payload.Text.{string_with-text, pipeline-option}
use actix_web.Extractor.{tuple, tuple_from_request}
use actix_web.Extractor.Sharing.{tuple_from_request-taken, PartExtract}
use actix_web.Handler.Arguments.{
  arguments, pipeline-arguments, pipeline-failed_argument, pipeline-arguments_answer,
}

abbrev types : HttpTypes
types = record { Response = ℕ; Error = ℕ; not_found = 404; from_error = λ e. e }

abbrev read : ServiceRequest (List ℕ) → Fut (List ℕ) ℕ × ServiceRequest (List ℕ)
read req = (
  elim req.payload [ absent ↦ now (ok []) | stream body ↦ after 2 (ok body) ],
  record req { payload = absent },
)

-- Bodies of type text/plain in UTF-8, of which the text is known for one.
abbrev bodies : Bodies types (List ℕ)
bodies = record {
  Mime = String;
  mime_eq = str_eq;
  Encoding = Bool;
  is_utf8 = λ e. e;
  from_utf8 = λ bs. elim bs [ [] ↦ some "" | b ∷ bs ↦ none ];
  decode_strict = λ e bs. none;
  ContentTypeError = ℕ;
  PayloadError = ℕ;
  UrlencodedError = ℕ;
  JsonPayloadError = ℕ;
  mime_type = λ req. ok (some "text/plain");
  encoding = λ req. ok true;
  bad_request = λ s. 400;
  from_content_type = λ e. e;
  from_payload = λ e. e;
  from_urlencoded = λ e. e;
  from_json = λ e. e;
  message_body = λ req limit. read req;
  Decoded = ℕ;
  url_encoded = λ req limit. (now (err limit), req);
  json_body = λ req limit. (now (err limit), req);
}

abbrev post : List ℕ → ServiceRequest (List ℕ)
post body = record {
  req = record {
    method = "POST";
    path = "/";
    query = none;
    header = λ name. none;
    match_path = codes "/";
  };
  payload = stream body;
}

abbrev taken : ServiceRequest (List ℕ)
taken = record (post []) { payload = absent }

-- A type that is not the one required leaves the payload.
other_type :
    string_with direct bodies (require_mimetype "text/html" default_payload) (post [])
    ≡ (now (err 400), post [])
unfolding string_with check_mimetype
other_type = refl

string_with-text_example :
    string_with direct bodies (require_mimetype "text/plain" default_payload) (post (255 ∷ []))
    ≡ (after 2 (err 400), taken)
string_with-text_example =
    string_with-text direct bodies (require_mimetype "text/plain" default_payload) (post (255 ∷ []))
      taken 2 (ok (255 ∷ [])) refl

abbrev sized : Responder types (Option String)
sized = record {
  Error = ℕ;
  into = λ e. e;
  respond_to = λ o req. now (ok (elim o [ none ↦ 204 | some s ↦ 200 ]));
}

abbrev number : FromRequest types (List ℕ) String
number = record {
  Error = ℕ;
  into = λ e. e;
  from_request = λ req. (after 2 (err 400), record req { payload = absent });
}

number_or_none :
    pipeline types direct (option direct number) sized (λ o. o) (post [])
    ≡ after 2 (ok (new_response types (post []).req 204))
number_or_none =
    pipeline-option direct number sized (λ o. o) (post []) taken 2 (err 400) (λ o. 0)
      (λ o. ok (elim o [ none ↦ 204 | some s ↦ 200 ])) refl (λ o. refl)

-- The body as bytes, of any type and of the type text/html, which no request has.
abbrev body : PartExtract (List ℕ) (List ℕ) ℕ
body = bytes_with direct bodies default_payload

abbrev html_body : PartExtract (List ℕ) (List ℕ) ℕ
html_body = bytes_with direct bodies (require_mimetype "text/html" default_payload)

tuple_from_request-taken_example :
    tuple_from_request (html_body ∷ body ∷ body ∷ []) (post (1 ∷ 2 ∷ []))
    ≡ (tuple (now (err 400) ∷ after 2 (ok (1 ∷ 2 ∷ [])) ∷ now (ok []) ∷ []), taken)
unfolding check_mimetype
tuple_from_request-taken_example =
    tuple_from_request-taken (html_body ∷ []) body (body ∷ []) (post (1 ∷ 2 ∷ [])) (refl, tt) refl
      (refl, tt)

abbrev total : List (List ℕ) → ℕ
total [] = 0
total (xs ∷ xss) = length xs + total xss

abbrev counting : Responder types (List (List ℕ))
counting = record {
  Error = ℕ;
  into = λ e. e;
  respond_to = λ xss req. after 1 (ok (200 + total xss));
}

pipeline-arguments_example :
    (m : ℕ) × (m ≤ 2)
    × (pipeline types direct
          (arguments (λ e. e) (body ∷ body ∷ []))
          counting
          (λ xss. xss)
          (post (1 ∷ 2 ∷ []))
        ≡ after (m + 1) (ok (new_response types taken.req 202)))
unfolding check_mimetype
pipeline-arguments_example =
    pipeline-arguments direct (λ e. e) (body ∷ body ∷ []) counting (λ xss. xss) (post (1 ∷ 2 ∷ []))
      taken 2 ((2, 1 ∷ 2 ∷ []) ∷ (0, []) ∷ []) (λ xss. 1) (λ xss. ok (200 + total xss)) refl
      (omega arith) (λ xss. refl)

pipeline-failed_argument_example :
    (k : ℕ) × (k ≤ 0)
    × (pipeline types direct
          (arguments (λ e. e) (body ∷ html_body ∷ []))
          counting
          (λ xss. xss)
          (post (1 ∷ 2 ∷ []))
        ≡ after k (ok (new_response types taken.req 400)))
unfolding check_mimetype error_response
pipeline-failed_argument_example =
    pipeline-failed_argument direct (λ e. e) (body ∷ html_body ∷ []) counting (λ xss. xss)
      (post (1 ∷ 2 ∷ [])) taken 0 ((2, ok (1 ∷ 2 ∷ [])) ∷ []) 400 [] (λ xss. 1)
      (λ xss. ok (200 + total xss)) refl tt tt (λ xss. refl)

arguments_answered :
    (k : ℕ) × (res : ServiceResponse types) × (pipeline types direct
        (arguments (λ e. e) (body ∷ html_body ∷ body ∷ []))
        counting
        (λ xss. xss)
        (post (1 ∷ 2 ∷ []))
      ≡ after k (ok res))
unfolding check_mimetype
arguments_answered =
    pipeline-arguments_answer direct (λ e. e) (body ∷ html_body ∷ body ∷ []) counting (λ xss. xss)
      (post (1 ∷ 2 ∷ [])) taken (after 2 (ok (1 ∷ 2 ∷ [])) ∷ now (err 400) ∷ now (ok []) ∷ [])
      (λ xss. 1) (λ xss. ok (200 + total xss)) refl (tt, (tt, (tt, tt))) (λ xss. refl)
