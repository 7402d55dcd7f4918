-- ===== src/Handler.antt =====
-- src/handler.rs: how the arguments of a handler are extracted from a request, and how what the
-- handler returns becomes the response. A handler is a function of its arguments; `Handle`,
-- `AsyncHandle` and `Extract` hold nothing else, so their `new_service` is the service at once.
pub mod Answer
pub mod Arguments
pub mod Factory
pub mod Pipeline
pub mod Tests
use actix_web.Prelude.{Option, none, some, Result, ok, err}
use actix_web.Futures.{Poll, Fut, ready, not_ready, error, panicked, later, now, spent, poll_fut}
use actix_web.Http.{
  HttpRequest, HttpTypes, ServiceRequest, into_request, ServiceResponse, new_response,
}

-- `Responder`, of the values of one type.
pub record Responder (H : HttpTypes) (R : Type 0) : Type 1 where
  pub Error : Type 0
  -- `Error: Into<Error>`
  pub into : Error → H.Error
  pub respond_to : R → HttpRequest → Fut H.Response Error

-- `FromRequest`, of one type; `from_request` may take the payload out of the request.
pub record FromRequest (H : HttpTypes) (P T : Type 0) : Type 1 where
  pub Error : Type 0
  pub into : Error → H.Error
  pub from_request : ServiceRequest P → Fut T Error × ServiceRequest P

-- `HandleServiceResponse` and `AsyncHandleServiceResponse`.
pub record HandleServiceResponse (A E : Type 0) : Type 0 where
  pub fut : Fut A E
  pub req : Option HttpRequest

-- `ExtractResponse`.
pub record ExtractResponse (P T E : Type 0) : Type 0 where
  pub req : Option (ServiceRequest P)
  pub fut : Fut T E

module _ (H : HttpTypes) where
  -- `Service::call` of `HandleService`.
  abbrev pub handle :
      {T R : Type 0} (r : Responder H R)
      → (T → R)
      → T × HttpRequest
      → HandleServiceResponse H.Response r.Error
  handle r hnd (param, req) = record { fut = r.respond_to (hnd param) req; req = some req }

  -- `Service::call` of `AsyncHandleService`; the handler returns the future itself.
  abbrev pub handle_async :
      {T A E : Type 0} → (T → Fut A E) → T × HttpRequest → HandleServiceResponse A E
  handle_async hnd (param, req) = record { fut = hnd param; req = some req }

  -- `Ok(Async::Ready(ServiceResponse::new(self.req.take().unwrap(), res)))`
  abbrev pub respond :
      {A E : Type 0}
      → Fut A E
      → Option HttpRequest
      → H.Response
      → Poll (ServiceResponse H) ⊥ × HandleServiceResponse A E
  respond fut none res = (panicked, record { fut = fut; req = none })
  respond fut (some req) res = (ready (new_response H req res), record { fut = fut; req = none })

  abbrev pub answer :
      {A E : Type 0}
      → (A → H.Response)
      → (E → H.Error)
      → Option HttpRequest
      → Poll A E × Fut A E
      → Poll (ServiceResponse H) ⊥ × HandleServiceResponse A E
  answer into_response into req (ready res, fut) = respond fut req (into_response res)
  answer into_response into req (not_ready, fut) = (not_ready, record { fut = fut; req = req })
  answer into_response into req (error e, fut) = respond fut req (H.from_error (into e))
  answer into_response into req (panicked, fut) = (panicked, record { fut = fut; req = req })

  -- `Future::poll` of `HandleServiceResponse`, whose item is a response, and of
  -- `AsyncHandleServiceResponse`, whose item is made into one. Neither has an error.
  unfoldable pub poll_handle :
      {A E : Type 0}
      → (A → H.Response)
      → (E → H.Error)
      → HandleServiceResponse A E
      → Poll (ServiceResponse H) ⊥ × HandleServiceResponse A E
  poll_handle into_response into s = answer into_response into s.req (poll_fut s.fut)

  -- `Service::call` of `ExtractService`.
  abbrev pub extract :
      {P T : Type 0} (t : FromRequest H P T) → ServiceRequest P → ExtractResponse P T t.Error
  extract t req = let (fut, req') = t.from_request req in record { req = some req'; fut = fut }

  abbrev pub extracted :
      {P T E : Type 0}
      → (E → H.Error)
      → Option (ServiceRequest P)
      → Poll T E × Fut T E
      → Poll (T × HttpRequest) (H.Error × ServiceRequest P) × ExtractResponse P T E
  extracted into none (ready item, fut) = (panicked, record { req = none; fut = fut })
  extracted into none (error e, fut) = (panicked, record { req = none; fut = fut })
  extracted into (some req) (ready item, fut) =
      (ready (item, into_request req), record { req = none; fut = fut })
  extracted into (some req) (error e, fut) = (error (into e, req), record { req = none; fut = fut })
  extracted into req (not_ready, fut) = (not_ready, record { req = req; fut = fut })
  extracted into req (panicked, fut) = (panicked, record { req = req; fut = fut })

  -- `Future::poll` of `ExtractResponse`.
  unfoldable pub poll_extract :
      {P T E : Type 0}
      → (E → H.Error)
      → ExtractResponse P T E
      → Poll (T × HttpRequest) (H.Error × ServiceRequest P) × ExtractResponse P T E
  poll_extract into s = extracted into s.req (poll_fut s.fut)
