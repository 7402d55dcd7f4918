-- ===== src/App/Answer.antt =====
-- A request from the application (src/app.rs) through a resource and a route to a handler and back.
mod Tests
use actix_web.Prelude.{
  ℕ, suc, zero, true, Option, none, some, List, ◌∷◌, ◌++◌, map, Result, ◌≡◌, ap, ◌∙◌, All,
  get_elem?,
}
use actix_web.Futures.{Fut, ready, after}
use actix_web.Futures.Combinators.{Combinators}
use actix_web.Http.{HttpRequest, HttpTypes, ServiceRequest}
use actix_web.Filter.{Filters}
use actix_web.Route.{Service, Route, RouteService, check_route}
use actix_web.Route.Check.{Accepts, Rejects, All-Rejects, Accepts-check_filters}
use actix_web.Handler.{Responder, FromRequest}
use actix_web.Handler.Answer.{answer_of, pipeline-answer}
use actix_web.Handler.Pipeline.{pipeline}
use actix_web.Resource.{create}
use actix_web.Resource.Create.{drive as drive_resource}
use actix_web.Resource.Dispatch.{Refuses, call-first}
use actix_web.App.{RouterTypes, call, resource_factory}
use actix_web.App.Create.{AllDoneBy}
use actix_web.App.Defaults.{Step, registered, defaults_of, last_default}
use actix_web.App.Dispatch.{started, call-resource}

-- The service of a route made by `RouteBuilder::to`.
abbrev pub handler_route :
    {H : HttpTypes} {P T V : Type 0}
    → Combinators
    → FromRequest H P T
    → Responder H V
    → (T → V)
    → Filters
    → RouteService H P
handler_route {H} C t r hnd filters = record { service = pipeline H C t r hnd; filters = filters }

-- The service that the entry point of an application creates, which the middleware of the application
-- stands around, where its services are each created within n + 1 polls: a request that comes to it
-- and that the router hands to a resource, in which each route before some handler's has a filter
-- that refuses it and that route has none, is answered by this handler: after the m polls that the extraction of its argument
-- takes, by the response of the error if that fails; otherwise, when the value that the handler
-- returns has responded, by its response or the response of its error. This holds whatever services
-- and defaults were registered before and behind.
pub call-answer :
    {R : RouterTypes} {H : HttpTypes} {P T V : Type 0} (C : Combinators) (t : FromRequest H P T)
    (r : Responder H V) (hnd : T → V) (filters : Filters) (n i cell : ℕ) (steps : List (Step R H P))
    (es : List (R.ResourceDef × Service H P)) (rdef : R.ResourceDef) (routes : List (Route H P))
    (default : Option (Fut (Service H P) (Unit {0}))) (before behind : List (RouteService H P))
    (fallback : Option (Service H P)) (req : ServiceRequest P) (found_req : HttpRequest)
    (req' : ServiceRequest P) (m : ℕ) (x : Result T t.Error) (wait : T → ℕ)
    (result : T → Result H.Response r.Error)
    → AllDoneBy {R = R} n es (started steps)
    → get_elem? (registered zero steps) i ≡ some (rdef, resource_factory routes cell)
    → get_elem? (defaults_of (last_default none steps) steps) cell ≡ some default
    → drive_resource (suc n) (create (record { routes = routes; default = default }))
      ≡ ready (record {
        routes = before ++ handler_route C t r hnd filters ∷ behind;
        default = fallback;
      })
    → R.recognize (map (λ e. e.0) es) req.req ≡ (some i, found_req)
    → All (λ route. Rejects route.filters found_req) before
    → Accepts filters found_req
    → t.from_request (record req { req = found_req }) ≡ (after m x, req')
    → ((item : T) → r.respond_to (hnd item) req'.req ≡ after (wait item) (result item))
    → call {R = R} (record { router = es }) req
      ≡ answer_of H t.into (λ res. res) r.into req' m wait result x
unfolding check_route
call-answer C t r hnd filters n i cell steps es rdef routes default before behind fallback req
      found_req req' m x wait result done place own created found refused accepts extracted
      responds =
    (call-resource n i cell steps es rdef routes default
      (record { routes = before ++ handler_route C t r hnd filters ∷ behind; default = fallback })
      req found_req done place own created found).1
    ∙ call-first (record req { req = found_req }) before behind (handler_route C t r hnd filters)
        fallback (All-Rejects (record req { req = found_req }) before refused)
        (Accepts-check_filters filters found_req accepts)
    ∙ pipeline-answer C t r hnd (record req { req = found_req }) req' m x wait result extracted
        responds
