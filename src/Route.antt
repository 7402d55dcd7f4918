-- ===== src/Route.antt =====
-- src/route.rs: a route is a service behind filters.
pub mod Check
use actix_web.Prelude.{String, Bool, true, false, not, if◌then◌else◌, ok, err}
use actix_web.Futures.{Poll, Fut, ready, not_ready, error, panicked, poll_fut, later, now, spent}
use actix_web.Http.{HttpRequest, ServiceRequest, HttpTypes, ServiceResponse, error_response}
use actix_web.Filter.{Filter, Filters, nil, cons, push, check, method_filter}

-- `BoxedRouteService`: what is called with a request, and answers in time.
abbrev pub Service : HttpTypes → Type 0 → Type 0
Service H P = ServiceRequest P → Fut (ServiceResponse H) (Unit {0})

-- `RouteBuilder`: its filters, in the order in which they were added.
pub record RouteBuilder : Type 0 where
  pub filters : Filters

-- `Route::build`, which is `RouteBuilder::new`.
abbrev pub build : RouteBuilder
build = record { filters = nil }

-- `RouteBuilder::method`.
unfoldable pub method : RouteBuilder → String → RouteBuilder
method b m = record { filters = push b.filters (method_filter m) }

-- `Route::get`, `post`, `put` and `delete`.
unfoldable pub get : RouteBuilder
get = method build "GET"

unfoldable pub post : RouteBuilder
post = method build "POST"

unfoldable pub put : RouteBuilder
put = method build "PUT"

unfoldable pub delete : RouteBuilder
delete = method build "DELETE"

-- `RouteBuilder::filter`.
unfoldable pub filter : RouteBuilder → Filter → RouteBuilder
filter b f = record { filters = push b.filters f }

module _ (H : HttpTypes) (P : Type 0) where
  -- `Route`; `new_service` is the future that `self.service.new_service()` returns.
  pub record Route : Type 0 where
    pub new_service : Fut (Service H P) (Unit {0})
    pub filters : Filters

  -- `RouteService`.
  pub record RouteService : Type 0 where
    pub service : Service H P
    pub filters : Filters

  -- `CreateRouteService`.
  pub record CreateRouteService : Type 0 where
    pub fut : Fut (Service H P) (Unit {0})
    pub filters : Filters

-- The loop of `RouteService::check`.
unfoldable pub check_filters : Filters → HttpRequest → Bool
check_filters nil req = true
check_filters (cons f fs) req = if not (check f req) then false else check_filters fs req

module _ {H : HttpTypes} {P : Type 0} where
  -- `RouteBuilder::to` and `to_async`, of the service that is made of the handler.
  unfoldable pub to : RouteBuilder → Fut (Service H P) (Unit {0}) → Route H P
  to b service = record { new_service = service; filters = b.filters }

  -- `NewService::new_service` of `Route`.
  abbrev pub new_service : Route H P → CreateRouteService H P
  new_service r = record { fut = r.new_service; filters = r.filters }

  -- `Future::poll` of `CreateRouteService`.
  abbrev pub poll_create :
      CreateRouteService H P → Poll (RouteService H P) (Unit {0}) × CreateRouteService H P
  poll_create c =
      let (p, fut') = poll_fut c.fut in
      (
        elim p [
          | ready service ↦ ready (record { service = service; filters = c.filters })
          | not_ready ↦ not_ready
          | error e ↦ error e
          | panicked ↦ panicked
        ],
        record c { fut = fut' },
      )

  -- `RouteService::check`.
  unfoldable pub check_route : RouteService H P → ServiceRequest P → Bool
  unfolding check_filters
  check_route r req = check_filters r.filters req.req

  -- `Service::call` of `RouteService`.
  abbrev pub call_route : RouteService H P → Service H P
  call_route r req = r.service req

  -- `RouteServiceWrapper::call`: an error of the pipeline is answered by its own response.
  unfoldable pub wrap :
      Fut (ServiceResponse H) (H.Error × ServiceRequest P) → Fut (ServiceResponse H) (Unit {0})
  wrap (later f) = later (wrap f)
  wrap (now (ok res)) = now (ok res)
  wrap (now (err (e, req))) = now (ok (error_response H req e))
  wrap spent = spent
