-- ===== src/Handler/Pipeline.antt =====
-- A handler behind its extractor: what the futures of src/handler.rs come to, and the service that
-- `RouteBuilder::to` and `to_async` of src/route.rs make of them.
use actix_web.Prelude.{Option, none, some, ok, err, ◌≡◌, refl}
use actix_web.Futures.{Fut, later, now, spent, poll_fut}
use actix_web.Futures.Drive.{IsFuture}
use actix_web.Futures.Combinators.{Combinators, and_then, expect_ok}
use actix_web.Http.{
  HttpRequest, HttpTypes, ServiceRequest, into_request, ServiceResponse, new_response,
}
use actix_web.Route.{Service, wrap}
use actix_web.Handler.{
  Responder, FromRequest, HandleServiceResponse, ExtractResponse, handle, handle_async, poll_handle,
  extract, poll_extract,
}

module _ (H : HttpTypes) where
  -- What a `HandleServiceResponse` comes to, by its future and its request.
  abbrev pub handling :
      {A E : Type 0}
      → (A → H.Response)
      → (E → H.Error)
      → Fut A E
      → Option HttpRequest
      → Fut (ServiceResponse H) ⊥
  handling into_response into (later f) req = later (handling into_response into f req)
  handling into_response into (now r) none = spent
  handling into_response into (now (ok res)) (some req) =
      now (ok (new_response H req (into_response res)))
  handling into_response into (now (err e)) (some req) =
      now (ok (new_response H req (H.from_error (into e))))
  handling into_response into spent req = spent

  abbrev pub handle_future :
      {A E : Type 0}
      → (A → H.Response)
      → (E → H.Error)
      → HandleServiceResponse A E
      → Fut (ServiceResponse H) ⊥
  handle_future into_response into s = handling into_response into s.fut s.req

  poll-handling :
      {A E : Type 0} (into_response : A → H.Response) (into : E → H.Error) (fut : Fut A E)
      (req : Option HttpRequest)
      → poll_fut (handling into_response into fut req) ≡ (
        (poll_handle H into_response into (record { fut = fut; req = req })).0,
        handle_future into_response into
            (poll_handle H into_response into (record { fut = fut; req = req })).1,
      )
  unfolding poll_handle
  poll-handling into_response into (later f) req = refl
  poll-handling into_response into (now (ok res)) none = refl
  poll-handling into_response into (now (err e)) none = refl
  poll-handling into_response into (now (ok res)) (some req) = refl
  poll-handling into_response into (now (err e)) (some req) = refl
  poll-handling into_response into spent req = refl

  abbrev pub extracting :
      {P T E : Type 0}
      → (E → H.Error)
      → Fut T E
      → Option (ServiceRequest P)
      → Fut (T × HttpRequest) (H.Error × ServiceRequest P)
  extracting into (later f) req = later (extracting into f req)
  extracting into (now r) none = spent
  extracting into (now (ok item)) (some req) = now (ok (item, into_request req))
  extracting into (now (err e)) (some req) = now (err (into e, req))
  extracting into spent req = spent

  abbrev pub extract_future :
      {P T E : Type 0}
      → (E → H.Error)
      → ExtractResponse P T E
      → Fut (T × HttpRequest) (H.Error × ServiceRequest P)
  extract_future into s = extracting into s.fut s.req

  poll-extracting :
      {P T E : Type 0} (into : E → H.Error) (fut : Fut T E) (req : Option (ServiceRequest P))
      → poll_fut (extracting into fut req) ≡ (
        (poll_extract H into (record { fut = fut; req = req })).0,
        extract_future into (poll_extract H into (record { fut = fut; req = req })).1,
      )
  unfolding poll_extract
  poll-extracting into (later f) none = refl
  poll-extracting into (later f) (some req) = refl
  poll-extracting into (now (ok item)) none = refl
  poll-extracting into (now (err e)) none = refl
  poll-extracting into (now (ok item)) (some req) = refl
  poll-extracting into (now (err e)) (some req) = refl
  poll-extracting into spent none = refl
  poll-extracting into spent (some req) = refl

  -- The service of `RouteBuilder::to`.
  unfoldable pub pipeline :
      {P T R : Type 0} → Combinators → FromRequest H P T → Responder H R → (T → R) → Service H P
  pipeline C t r hnd req = wrap (
      and_then C (extract_future t.into (extract H t req))
        (λ arg. expect_ok C (handle_future (λ res. res) r.into (handle H r hnd arg))))

  -- The service of `RouteBuilder::to_async`.
  unfoldable pub pipeline_async :
      {P T A E : Type 0}
      → Combinators
      → FromRequest H P T
      → (A → H.Response)
      → (E → H.Error)
      → (T → Fut A E)
      → Service H P
  pipeline_async C t into_response into hnd req = wrap (
      and_then C (extract_future t.into (extract H t req))
        (λ arg. expect_ok C (handle_future into_response into (handle_async H hnd arg))))

-- The polls of `HandleServiceResponse` and `AsyncHandleServiceResponse` are those of one future,
-- which has the request ready for the one poll that needs it.
pub poll_handle-IsFuture :
    (H : HttpTypes) {A E : Type 0} (into_response : A → H.Response) (into : E → H.Error)
    → IsFuture (poll_handle H into_response into) (handle_future H into_response into)
poll_handle-IsFuture H into_response into s = poll-handling H into_response into s.fut s.req

-- The polls of `ExtractResponse` are those of one future.
pub poll_extract-IsFuture :
    (H : HttpTypes) {P T E : Type 0} (into : E → H.Error)
    → IsFuture (poll_extract H {P = P} {T = T} into) (extract_future H into)
poll_extract-IsFuture H into s = poll-extracting H into s.fut s.req
