-- ===== src/Framed.antt =====
-- src/framed_handler.rs and the service of src/framed_route.rs, which src/lib.rs does not compile at
-- this commit: handlers of upgraded connections. The framed connection is a parameter.
pub mod App
pub mod Built
pub mod Factory
pub mod Pipeline
pub mod Route
mod Tests
use actix_web.Prelude.{String, Option, none, some, List, [], ◌∷◌, ◌++◌, Result, ok, err}
use actix_web.Futures.{Poll, Fut, ready, not_ready, error, panicked, poll_fut}
use actix_web.Http.{HttpRequest, HttpTypes}

-- `FramedError`.
pub record FramedError (E F : Type 0) : Type 0 where
  pub err : E
  pub framed : F

-- `FramedRequest`.
pub record FramedRequest (F Ex : Type 0) : Type 0 where
  pub req : HttpRequest
  pub framed : F
  pub param : Ex

-- `FromRequest`, as these files use it, with the default configuration.
pub record FramedExtractor (H : HttpTypes) (T : Type 0) : Type 1 where
  pub Error : Type 0
  pub into : Error → H.Error
  pub from_request : HttpRequest → Fut T Error

module _ {F : Type 0} where
  -- `FramedRequest::new`, `into_parts` and `map`.
  abbrev pub new : HttpRequest → F → FramedRequest F (Unit {0})
  new req framed = record { req = req; framed = framed; param = tt }

  abbrev pub into_parts : {Ex : Type 0} → FramedRequest F Ex → HttpRequest × F × Ex
  into_parts r = (r.req, r.framed, r.param)

  abbrev pub map_param : {Ex Ex2 : Type 0} → (Ex → Ex2) → FramedRequest F Ex → FramedRequest F Ex2
  map_param op r = record { req = r.req; framed = r.framed; param = op r.param }

-- `FramedExtractResponse`.
pub record FramedExtractResponse (F Ex T E : Type 0) : Type 0 where
  pub fut : Fut T E
  pub req : Option (FramedRequest F Ex)

-- `FramedRouteServiceResponse`.
pub record FramedRouteServiceResponse (A E S : Type 0) : Type 0 where
  pub fut : Fut A E
  pub send : Option (Fut (Unit {0}) S)

module _ {F Ex : Type 0} where
  -- `Service::call` of `FramedHandleService`, whose response is its future.
  abbrev pub handle :
      {T E : Type 0} → (F → T → Ex → Fut (Unit {0}) E) → T × FramedRequest F Ex → Fut (Unit {0}) E
  handle hnd (param, framed) = let (req, framed, ex) = into_parts framed in hnd framed param ex

  -- `Service::call` of `FramedExtractService`.
  abbrev pub extract :
      {H : HttpTypes} {T : Type 0} (t : FramedExtractor H T)
      → FramedRequest F Ex
      → FramedExtractResponse F Ex T t.Error
  extract t req = record { fut = t.from_request req.req; req = some req }

  abbrev pub extracted :
      {T E G : Type 0}
      → (E → G)
      → Option (FramedRequest F Ex)
      → Poll T E × Fut T E
      → Poll (T × FramedRequest F Ex) (FramedError G F) × FramedExtractResponse F Ex T E
  extracted into req (not_ready, fut) = (not_ready, record { fut = fut; req = req })
  extracted into req (panicked, fut) = (panicked, record { fut = fut; req = req })
  extracted into none (ready item, fut) = (panicked, record { fut = fut; req = none })
  extracted into none (error e, fut) = (panicked, record { fut = fut; req = none })
  extracted into (some req) (ready item, fut) =
      (ready (item, req), record { fut = fut; req = none })
  extracted into (some req) (error e, fut) = (
    error (record { err = into e; framed = (into_parts req).1 }),
    record { fut = fut; req = none },
  )

  -- `Future::poll` of `FramedExtractResponse`.
  unfoldable pub poll_extract :
      {T E G : Type 0}
      → (E → G)
      → FramedExtractResponse F Ex T E
      → Poll (T × FramedRequest F Ex) (FramedError G F) × FramedExtractResponse F Ex T E
  poll_extract into s = extracted into s.req (poll_fut s.fut)

-- The error of a handler is logged and dropped.
abbrev pub dropped : {E G : Type 0} → Poll (Unit {0}) E → Poll (Unit {0}) G
dropped not_ready = not_ready
dropped (ready res) = ready res
dropped (error e) = ready tt
dropped panicked = panicked

-- `Future::poll` of `FramedHandleServiceResponse`.
unfoldable pub poll_handle :
    {E G : Type 0} → Fut (Unit {0}) E → Poll (Unit {0}) G × Fut (Unit {0}) E
poll_handle fut = let (p, fut') = poll_fut fut in (dropped p, fut')

-- What each of the two matches of the poll of a route's response makes of a poll.
abbrev pub to_unit : {A E : Type 0} → Poll A E → Poll (Unit {0}) (Unit {0})
to_unit not_ready = not_ready
to_unit (ready a) = ready tt
to_unit (error e) = error tt
to_unit panicked = panicked

module _ {A E S : Type 0} where
  abbrev pub poll_send :
      Fut A E
      → Option (Fut (Unit {0}) S)
      → Poll (Unit {0}) (Unit {0}) × FramedRouteServiceResponse A E S
  poll_send fut (some send) =
      let (p, send') = poll_fut send in (to_unit p, record { fut = fut; send = some send' })
  poll_send fut none =
      let (p, fut') = poll_fut fut in (to_unit p, record { fut = fut'; send = none })

  -- `Future::poll` of `FramedRouteServiceResponse`.
  unfoldable pub poll_route :
      FramedRouteServiceResponse A E S
      → Poll (Unit {0}) (Unit {0}) × FramedRouteServiceResponse A E S
  poll_route s = poll_send s.fut s.send

-- `FramedRouteService`, without the state.
pub record FramedRouteService (F Ex G : Type 0) : Type 0 where
  pub service : FramedRequest F Ex → Fut (Unit {0}) (FramedError G F)
  pub pattern : String
  pub methods : List String
  pub headers : List (String × String)

-- `Service::call` of `FramedRouteService`, which reads neither the methods nor the headers.
abbrev pub call_route :
    {F Ex G : Type 0} (S : Type 0)
    → FramedRouteService F Ex G
    → FramedRequest F Ex
    → FramedRouteServiceResponse (Unit {0}) (FramedError G F) S
call_route S r req = record { fut = r.service req; send = none }
