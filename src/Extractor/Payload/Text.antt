-- ===== src/Extractor/Payload/Text.antt =====
-- What the extraction of a text from a body comes to, and a handler whose argument may be missing
-- (src/extractor.rs).
use actix_web.Prelude.{
  not, if◌then◌else◌, ℕ, Bool, true, false, Option, none, some, String, Result, ok, err, List, ◌≡◌,
  refl, ap, ◌∙◌, ◌+◌,
}
use actix_web.Futures.{Fut, after, now}
use actix_web.Futures.Combinators.{
  Combinators, and_then, map_err, chain-after, delay, delay-now, if_ok, err_mapped,
}
use actix_web.Http.{HttpTypes, ServiceRequest, new_response}
use actix_web.Handler.{Responder, FromRequest}
use actix_web.Handler.Answer.{pipeline-answer, response_of, answer_of}
use actix_web.Handler.Pipeline.{pipeline}
use actix_web.Extractor.Payload.{
  Bodies, PayloadConfig, compare_mimetype, check_mimetype, decode_body, string_checked,
  string_encoded, string_with, or_bad_request, option, to_option,
}

module _ {H : HttpTypes} {P : Type 0} (B : Bodies H P) where
  -- The text of a body, by whether its encoding is UTF-8, by what UTF-8 makes of the bytes, and by
  -- what the decoder of the encoding makes of them; 400 where that is nothing.
  abbrev pub decoded : Bool → Option String → Option String → Result String H.Error
  decoded true (some s) other = ok s
  decoded true none other = err (B.bad_request "Can not decode body")
  decoded false utf8 (some s) = ok s
  decoded false utf8 none = err (B.bad_request "Can not decode body")

  decode_body-decoded :
      (enc : B.Encoding) (body : List ℕ)
      → decode_body B enc body
        ≡ decoded (B.is_utf8 enc) (B.from_utf8 body) (B.decode_strict enc body)
  decode_body-decoded enc body = go (B.is_utf8 enc) (B.from_utf8 body) (B.decode_strict enc body)
    where
      go :
          (b : Bool) (utf8 other : Option String)
          → or_bad_request B (if b then utf8 else other) ≡ decoded b utf8 other
      go true (some s) other = refl
      go true none other = refl
      go false utf8 (some s) = refl
      go false utf8 none = refl

  -- The text or error of a body that is read.
  abbrev pub text_of : B.Encoding → Result (List ℕ) B.PayloadError → Result String H.Error
  text_of enc (ok body) = decoded (B.is_utf8 enc) (B.from_utf8 body) (B.decode_strict enc body)
  text_of enc (err e) = err (B.from_payload e)

  abbrev pub known : Result B.Encoding B.ContentTypeError → Result B.Encoding H.Error
  known (ok enc) = ok enc
  known (err e) = err (B.from_content_type e)

  -- What a request meets before its body is read, in this order: the type that is required, if
  -- any, and the encoding.
  abbrev pub admitted :
      Option B.Mime
      → Result (Option B.Mime) B.ContentTypeError
      → Result B.Encoding B.ContentTypeError
      → Result B.Encoding H.Error
  admitted none given enc = known enc
  admitted (some mt) (err e) enc = err (B.from_content_type e)
  admitted (some mt) (ok none) enc = err (B.bad_request "Content-Type is expected")
  admitted (some mt) (ok (some req_mt)) enc =
      if B.mime_eq mt req_mt then known enc else err (B.bad_request "Unexpected Content-Type")

  -- The extraction, by what the request meets; `m` is how many polls the body takes.
  abbrev pub text :
      ServiceRequest P
      → ServiceRequest P
      → ℕ
      → Result (List ℕ) B.PayloadError
      → Result B.Encoding H.Error
      → Fut String H.Error × ServiceRequest P
  text req read m body (err e) = (now (err e), req)
  text req read m body (ok enc) = (after m (text_of enc body), read)

module _ {H : HttpTypes} {P : Type 0} (C : Combinators) (B : Bodies H P) where
  delay_mapped :
      (m : ℕ) (body : Result (List ℕ) B.PayloadError) (enc : B.Encoding)
      → and_then C (map_err C (after m body) B.from_payload) (λ bs. now (decode_body B enc bs))
        ≡ after m (text_of B enc body)
  delay_mapped m body enc =
      ap (λ f. and_then C f next) (chain-after C m body (err_mapped B.from_payload) ∙ inner body)
      ∙ chain-after C m (mapped_err body) (if_ok next)
      ∙ last body
    where
      next : List ℕ → Fut String H.Error
      next bs = now (decode_body B enc bs)

      mapped_err : Result (List ℕ) B.PayloadError → Result (List ℕ) H.Error
      mapped_err (ok bs) = ok bs
      mapped_err (err e) = err (B.from_payload e)

      inner :
          (r : Result (List ℕ) B.PayloadError)
          → delay m (err_mapped B.from_payload r) ≡ after m (mapped_err r)
      inner (ok bs) = delay-now m (ok bs)
      inner (err e) = delay-now m (err (B.from_payload e))

      last :
          (r : Result (List ℕ) B.PayloadError)
          → delay m (if_ok next (mapped_err r)) ≡ after m (text_of B enc r)
      last (ok bs) =
          delay-now m (decode_body B enc bs) ∙ ap (after m) (decode_body-decoded B enc bs)
      last (err e) = delay-now m (err (B.from_payload e))

  string_encoded-text :
      (cfg : PayloadConfig B.Mime) (req read : ServiceRequest P) (m : ℕ)
      (body : Result (List ℕ) B.PayloadError) (enc : Result B.Encoding B.ContentTypeError)
      → B.message_body req cfg.limit ≡ (after m body, read)
      → string_encoded C B cfg req enc ≡ text B req read m body (known B enc)
  string_encoded-text cfg req read m body (err e) h = refl
  string_encoded-text cfg req read m body (ok enc) h =
      ap (λ p. (and_then C (map_err C p.0 B.from_payload) (λ bs. now (decode_body B enc bs)), p.1))
        h
      ∙ ap (λ f. (f, read)) (delay_mapped m body enc)

  string_checked-text :
      (cfg : PayloadConfig B.Mime) (req read : ServiceRequest P) (m : ℕ)
      (body : Result (List ℕ) B.PayloadError) (mt : B.Mime)
      (given : Result (Option B.Mime) B.ContentTypeError)
      → B.message_body req cfg.limit ≡ (after m body, read)
      → string_checked C B cfg req (compare_mimetype B mt given)
        ≡ text B req read m body (admitted B (some mt) given (B.encoding req.req))
  string_checked-text cfg req read m body mt (err e) h = refl
  string_checked-text cfg req read m body mt (ok none) h = refl
  string_checked-text cfg req read m body mt (ok (some given)) h = by_eq (B.mime_eq mt given)
    where
      by_eq :
          (b : Bool)
          → string_checked C B cfg req
              (if not b then err (B.bad_request "Unexpected Content-Type") else ok tt)
            ≡ text B req read m body (
                if b
                then known B (B.encoding req.req)
                else err (B.bad_request "Unexpected Content-Type"))
      by_eq true = string_encoded-text cfg req read m body (B.encoding req.req) h
      by_eq false = refl

  string_required-text :
      (cfg : PayloadConfig B.Mime) (req read : ServiceRequest P) (m : ℕ)
      (body : Result (List ℕ) B.PayloadError) (required : Option B.Mime)
      → B.message_body req cfg.limit ≡ (after m body, read)
      → string_checked C B cfg req
          (elim required [ some mt ↦ compare_mimetype B mt (B.mime_type req.req) | none ↦ ok tt ])
        ≡ text B req read m body (admitted B required (B.mime_type req.req) (B.encoding req.req))
  string_required-text cfg req read m body (some mt) h =
      string_checked-text cfg req read m body mt (B.mime_type req.req) h
  string_required-text cfg req read m body none h =
      string_encoded-text cfg req read m body (B.encoding req.req) h

-- The extraction of a text, where the body is read in m polls: a request without the type that is
-- required, or of an encoding that is not known, fails at the first poll, in this order, and its
-- payload is left; any other has its body read up to the limit, and what comes after m polls is the
-- error of the body, or the text that UTF-8 makes of it where the encoding is UTF-8 and that the
-- decoder of the encoding makes of it otherwise, or a 400 where that is none.
pub string_with-text :
    {H : HttpTypes} {P : Type 0} (C : Combinators) (B : Bodies H P) (cfg : PayloadConfig B.Mime)
    (req read : ServiceRequest P) (m : ℕ) (body : Result (List ℕ) B.PayloadError)
    → B.message_body req cfg.limit ≡ (after m body, read)
    → string_with C B cfg req
      ≡ text B req read m body (admitted B cfg.mimetype (B.mime_type req.req) (B.encoding req.req))
unfolding string_with check_mimetype
string_with-text C B cfg req read m body h =
    string_required-text C B cfg req read m body cfg.mimetype h

-- What a failure is to `Option<T>`.
abbrev pub kept : {T E : Type 0} → Result T E → Option T
kept (ok v) = some v
kept (err e) = none

-- A route whose handler takes an `Option<T>` calls it for every request: where the extraction of
-- the T takes m polls, the handler gets the value, or nothing where that failed, and the answer is
-- what comes of its result k polls later; no error of the extraction becomes the answer.
pub pipeline-option :
    {H : HttpTypes} {P T R : Type 0} (C : Combinators) (t : FromRequest H P T) (r : Responder H R)
    (hnd : Option T → R) (req req' : ServiceRequest P) (m : ℕ) (x : Result T t.Error)
    (wait : Option T → ℕ) (result : Option T → Result H.Response r.Error)
    → t.from_request req ≡ (after m x, req')
    → ((item : Option T) → r.respond_to (hnd item) req'.req ≡ after (wait item) (result item))
    → pipeline H C (option C t) r hnd req
      ≡ after
          (m + wait (kept x))
          (ok (new_response H req'.req (response_of H (λ res. res) r.into (result (kept x)))))
pipeline-option {H} {P} {T} C t r hnd req req' m x wait result e k =
    pipeline-answer C (option C t) r hnd req req' m (to_option x) wait result
      (ap (λ p. (C.chain T (Option T) t.Error H.Error p.0 (λ r. now (to_option r)), p.1)) e
        ∙ ap (λ f. (f, req'))
            (chain-after C m x (λ r. now (to_option r)) ∙ delay-now m (to_option x)))
      k
    ∙ last x
  where
    last :
        (x : Result T t.Error)
        → answer_of H (λ e. e) (λ res. res) r.into req' m wait result (to_option x)
          ≡ after
              (m + wait (kept x))
              (ok (new_response H req'.req (response_of H (λ res. res) r.into (result (kept x)))))
    last (ok v) = refl
    last (err e) = refl
