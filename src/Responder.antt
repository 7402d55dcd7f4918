-- ===== src/Responder.antt =====
-- src/responder.rs: how the values that handlers return become responses. Responses are built by
-- `actix_http`, a parameter.
pub mod Nested
mod Tests
use actix_web.Prelude.{ℕ, String, List, Option, none, some, Result, ok, err, ◌≡◌, refl}
use actix_web.Futures.{Poll, Fut, ready, not_ready, error, panicked, later, now, spent, poll_fut}
use actix_web.Futures.Combinators.{Combinators, and_then, map_err}
use actix_web.Http.{HttpRequest, HttpTypes}
use actix_web.Handler.{Responder}

-- `Response::build(status)` with a content type and a body, and with none of them.
pub record Responses (H : HttpTypes) : Type 1 where
  pub with_text : ℕ → String → String → H.Response
  pub with_bytes : ℕ → String → List ℕ → H.Response
  pub finished : ℕ → H.Response
  pub ResponseBuilder : Type 0
  pub finish : ResponseBuilder → H.Response

-- `Either`, and `EitherResponder` of the two futures.
pub data Either (A B : Type 0) : Type 0 where
  left : A → Either A B
  right : B → Either A B

-- `map_err(|e| e.into())?` of a poll.
abbrev pub into_error : {A E F : Type 0} → (E → F) → Poll A E → Poll A F
into_error into (ready a) = ready a
into_error into not_ready = not_ready
into_error into (error e) = error (into e)
into_error into panicked = panicked

-- `Future::poll` of `ResponseFuture`.
unfoldable pub poll_response : {A E F : Type 0} → (E → F) → Fut A E → Poll A F × Fut A E
poll_response into fut = let (p, fut') = poll_fut fut in (into_error into p, fut')

-- `Future::poll` of `EitherResponder`.
unfoldable pub poll_either :
    {A E F G : Type 0}
    → (E → G)
    → (F → G)
    → Either (Fut A E) (Fut A F)
    → Poll A G × Either (Fut A E) (Fut A F)
poll_either into_left into_right (left fut) =
    let (p, fut') = poll_fut fut in (into_error into_left p, left fut')
poll_either into_left into_right (right fut) =
    let (p, fut') = poll_fut fut in (into_error into_right p, right fut')

-- What the two come to: the future with its errors converted.
abbrev pub converted : {A E F : Type 0} → (E → F) → Fut A E → Fut A F
converted into (later f) = later (converted into f)
converted into (now (ok a)) = now (ok a)
converted into (now (err e)) = now (err (into e))
converted into spent = spent

abbrev pub converted_either :
    {A E F G : Type 0} → (E → G) → (F → G) → Either (Fut A E) (Fut A F) → Fut A G
converted_either into_left into_right (left fut) = converted into_left fut
converted_either into_left into_right (right fut) = converted into_right fut

module _ {H : HttpTypes} where
  -- `Response`.
  abbrev pub response : Responder H H.Response
  response = record { Error = H.Error; into = λ e. e; respond_to = λ res req. now (ok res) }

  -- `ResponseBuilder`.
  abbrev pub builder : (R : Responses H) → Responder H R.ResponseBuilder
  builder R = record { Error = H.Error; into = λ e. e; respond_to = λ b req. now (ok (R.finish b)) }

  -- `&'static str`, `String` and `&String`.
  abbrev pub string : Responses H → Responder H String
  string R = record {
    Error = H.Error;
    into = λ e. e;
    respond_to = λ s req. now (ok (R.with_text 200 "text/plain; charset=utf-8" s));
  }

  -- `&'static [u8]`, `Bytes` and `BytesMut`.
  abbrev pub bytes : Responses H → Responder H (List ℕ)
  bytes R = record {
    Error = H.Error;
    into = λ e. e;
    respond_to = λ s req. now (ok (R.with_bytes 200 "application/octet-stream" s));
  }

  abbrev pub option_respond :
      {T : Type 0}
      → Responses H
      → (t : Responder H T) → Option T
      → HttpRequest
      → Fut H.Response t.Error
  option_respond R t (some v) req = t.respond_to v req
  option_respond R t none req = now (ok (R.finished 404))

  -- `Option<T>`.
  abbrev pub option : {T : Type 0} → Responses H → Responder H T → Responder H (Option T)
  option R t = record { Error = t.Error; into = t.into; respond_to = option_respond R t }

  abbrev pub result_respond :
      {T E : Type 0}
      → (t : Responder H T) → (E → H.Error)
      → Result T E
      → HttpRequest
      → Fut H.Response H.Error
  result_respond t into (ok v) req = converted t.into (t.respond_to v req)
  result_respond t into (err e) req = now (err (into e))

  -- `Result<T, E>`; the future of a value is a `ResponseFuture`.
  abbrev pub result : {T E : Type 0} → Responder H T → (E → H.Error) → Responder H (Result T E)
  result t into = record { Error = H.Error; into = λ e. e; respond_to = result_respond t into }

  abbrev pub either_respond :
      {A B : Type 0}
      → (a : Responder H A) → (b : Responder H B) → Either A B
      → HttpRequest
      → Either (Fut H.Response a.Error) (Fut H.Response b.Error)
  either_respond a b (left v) req = left (a.respond_to v req)
  either_respond a b (right v) req = right (b.respond_to v req)

  -- `Either<A, B>`.
  abbrev pub either : {A B : Type 0} → Responder H A → Responder H B → Responder H (Either A B)
  either a b = record {
    Error = H.Error;
    into = λ e. e;
    respond_to = λ v req. converted_either a.into b.into (either_respond a b v req);
  }

  -- `Box<Future<Item = I, Error = E>>`.
  abbrev pub future :
      {I E : Type 0} → Combinators → Responder H I → (E → H.Error) → Responder H (Fut I E)
  future C i into = record {
    Error = H.Error;
    into = λ e. e;
    respond_to =
        λ fut req. and_then C (map_err C fut into) (λ r. converted i.into (i.respond_to r req));
  }
