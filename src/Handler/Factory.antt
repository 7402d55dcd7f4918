-- ===== src/Handler/Factory.antt =====
-- How the service of a route comes to be: the factories of src/handler.rs and `RouteNewService` of
-- src/route.rs, from `RouteBuilder::to` and `to_async` to the service that is called.
use actix_web.Prelude.{ℕ, Result, ok, true, ◌↔◌, ◌≡◌, ap, ◌∙◌}
use actix_web.Futures.{Fut, ready, now, after, longest}
use actix_web.Futures.Combinators.{
  Combinators, and_then, map_item, map_err, mapped, err_mapped, if_ok, chain-after,
}
use actix_web.Futures.Drive.{drive}
use actix_web.Http.{HttpTypes, ServiceRequest, ServiceResponse}
use actix_web.Route.{
  Service, RouteBuilder, Route, RouteService, to, new_service, poll_create, check_route, call_route,
}
use actix_web.Route.Check.{Accepts, Accepts-check_filters, check_filters-Accepts}
use actix_web.Handler.{Responder, FromRequest}
use actix_web.Handler.Pipeline.{pipeline, pipeline_async}
use actix_web.Handler.Answer.{pipeline-answer, pipeline_async-answer, answer_of}

-- What the module takes from `actix_service`: the future of `AndThenNewService`, which is done when
-- both factories have given their services.
pub record Joins : Type 1 where
  pub both : (A B E : Type 0) → Fut A E → Fut B E → Fut (A × B) E
  pub both-after :
      (A B E : Type 0) (m n : ℕ) (a : A) (b : B)
      → both A B E (after m (ok a)) (after n (ok b)) ≡ after (longest m n) (ok (a, b))

-- `Handle`, `AsyncHandle` and their services, which hold the handler.
pub record Handle (T R : Type 0) : Type 0 where
  pub hnd : T → R

-- `Extract` and its service, which hold nothing.
pub record Extract : Type 0 where

-- `Factory::call` and `AsyncFactory::call` of a function.
abbrev pub call_factory : {T R : Type 0} → (T → R) → T → R
call_factory hnd param = hnd param

-- `Handle::new` and `AsyncHandle::new`.
abbrev pub new_handle : {T R : Type 0} → (T → R) → Handle T R
new_handle hnd = record { hnd = hnd }

-- `NewService::new_service` of `Handle` and `AsyncHandle`.
abbrev pub handle_service : {T R : Type 0} → Handle T R → Fut (Handle T R) (Unit {0})
handle_service h = now (ok (record { hnd = h.hnd }))

-- `NewService::new_service` of `Extract`.
abbrev pub extract_service : Extract → Fut Extract (Unit {0})
extract_service e = now (ok (record {}))

module _ (C : Combinators) where
  -- `NewService::new_service` of `RouteNewService`, by what is created and the service of it that is
  -- behind `RouteServiceWrapper`.
  abbrev pub route_new_service :
      {H : HttpTypes} {P A I : Type 0} → Fut A I → (A → Service H P) → Fut (Service H P) (Unit {0})
  route_new_service created service_of =
      and_then C (map_err C created (λ e. tt)) (λ service. now (ok (service_of service)))

  -- `Extract::new().and_then(Handle::new(handler).map_err(..))`, the future of its services.
  abbrev pub handler_services :
      {T R : Type 0} → Joins → (T → R) → Fut (Extract × Handle T R) (Unit {0})
  handler_services J hnd =
      J.both _ _ _ (extract_service (record {}))
        (map_item C (handle_service (new_handle hnd)) (λ service. service))

  route_new_service-now :
      {H : HttpTypes} {P A : Type 0} (created : Fut A (Unit {0})) (a : A)
      (service_of : A → Service H P)
      → created ≡ now (ok a)
      → route_new_service created service_of ≡ now (ok (service_of a))
  route_new_service-now created a service_of h =
      ap (λ f. route_new_service f service_of) h
      ∙ ap (λ f. and_then C f (λ service. now (ok (service_of service))))
          (chain-after C 0 (ok a) (err_mapped (λ e. tt)))
      ∙ chain-after C 0 (ok a) (if_ok (λ service. now (ok (service_of service))))

  handler_services-now :
      {T R : Type 0} (J : Joins) (hnd : T → R)
      → handler_services J hnd ≡ now (ok (record {}, record { hnd = hnd }))
  handler_services-now J hnd =
      ap (J.both _ _ _ (now (ok (record {}))))
        (chain-after C 0 (ok (record { hnd = hnd })) (mapped (λ service. service)))
      ∙ J.both-after _ _ _ 0 0 (record {}) (record { hnd = hnd })

module _ {H : HttpTypes} {P : Type 0} (C : Combinators) (J : Joins) where
  -- `RouteBuilder::to`.
  unfoldable pub route_to :
      {T R : Type 0} → RouteBuilder → FromRequest H P T → Responder H R → (T → R) → Route H P
  route_to b t r hnd = to b (
      route_new_service C (handler_services C J hnd) (λ s. pipeline H C t r (call_factory s.1.hnd)))

  -- `RouteBuilder::to_async`.
  unfoldable pub route_to_async :
      {T A E : Type 0}
      → RouteBuilder
      → FromRequest H P T
      → (A → H.Response)
      → (E → H.Error)
      → (T → Fut A E)
      → Route H P
  route_to_async b t into_response into hnd = to b (
      route_new_service C (handler_services C J hnd)
        (λ s. pipeline_async H C t into_response into (call_factory s.1.hnd)))

  created_now :
      (b : RouteBuilder) (f : Fut (Service H P) (Unit {0})) (s : Service H P)
      → f ≡ now (ok s)
      → drive poll_create 1 (new_service (to b f))
        ≡ ready (record { service = s; filters = b.filters })
  unfolding drive to
  created_now b f s h = ap (λ f. drive poll_create 1 (new_service (to b f))) h

  pub route_to-now :
      {T R : Type 0} (b : RouteBuilder) (t : FromRequest H P T) (r : Responder H R) (hnd : T → R)
      → route_to b t r hnd ≡ to b (now (ok (pipeline H C t r hnd)))
  unfolding route_to
  route_to-now b t r hnd = ap (to b) (
      route_new_service-now C _ (record {}, record { hnd = hnd })
        (λ s. pipeline H C t r (call_factory s.1.hnd)) (handler_services-now C J hnd))

  -- What a route that is built for a handler comes to: a service behind the filters of its builder
  -- that answers like this.
  abbrev pub Serves :
      RouteBuilder → Route H P → ServiceRequest P → Fut (ServiceResponse H) (Unit {0}) → Type 0
  Serves b route req answer =
      (s : RouteService H P) × (drive poll_create 1 (new_service route) ≡ ready s)
      × ((check_route s req ≡ true) ↔ Accepts b.filters req.req)
      × (call_route s req ≡ answer)

-- A route made by `to` is created by its first poll. Its service takes exactly the requests that
-- every one of the filters of its builder accepts; where the extraction takes m polls and fails, it answers after m
-- polls by the response of that error; where it gives an item, and the handler's value responds in k
-- polls, it answers after m + k polls by that response, or by the response of its error.
pub route_to-answer :
    {H : HttpTypes} {P T R : Type 0} (C : Combinators) (J : Joins) (b : RouteBuilder)
    (t : FromRequest H P T) (r : Responder H R) (hnd : T → R) (req req' : ServiceRequest P) (m : ℕ)
    (x : Result T t.Error) (wait : T → ℕ) (result : T → Result H.Response r.Error)
    → t.from_request req ≡ (after m x, req')
    → ((item : T) → r.respond_to (hnd item) req'.req ≡ after (wait item) (result item))
    → Serves C J b
        (route_to C J b t r hnd)
        req
        (answer_of H t.into (λ res. res) r.into req' m wait result x)
unfolding route_to check_route
route_to-answer {H} C J b t r hnd req req' m x wait result e k = (
  record { service = pipeline H C t r hnd; filters = b.filters },
  created_now C J b _ (pipeline H C t r hnd) (
      route_new_service-now C _ (record {}, record { hnd = hnd })
        (λ s. pipeline H C t r (call_factory s.1.hnd)) (handler_services-now C J hnd)),
  (check_filters-Accepts b.filters req.req, Accepts-check_filters b.filters req.req),
  pipeline-answer C t r hnd req req' m x wait result e k,
)

-- The same for a route made by `to_async`, whose handler returns the future itself.
pub route_to_async-answer :
    {H : HttpTypes} {P T A E : Type 0} (C : Combinators) (J : Joins) (b : RouteBuilder)
    (t : FromRequest H P T) (into_response : A → H.Response) (into : E → H.Error)
    (hnd : T → Fut A E) (req req' : ServiceRequest P) (m : ℕ) (x : Result T t.Error) (wait : T → ℕ)
    (result : T → Result A E)
    → t.from_request req ≡ (after m x, req')
    → ((item : T) → hnd item ≡ after (wait item) (result item))
    → Serves C J b
        (route_to_async C J b t into_response into hnd)
        req
        (answer_of H t.into into_response into req' m wait result x)
unfolding route_to_async check_route
route_to_async-answer {H} C J b t into_response into hnd req req' m x wait result e k = (
  record { service = pipeline_async H C t into_response into hnd; filters = b.filters },
  created_now C J b _ (pipeline_async H C t into_response into hnd) (
      route_new_service-now C _ (record {}, record { hnd = hnd })
        (λ s. pipeline_async H C t into_response into (call_factory s.1.hnd))
        (handler_services-now C J hnd)),
  (check_filters-Accepts b.filters req.req, Accepts-check_filters b.filters req.req),
  pipeline_async-answer C t into_response into hnd req req' m x wait result e k,
)
