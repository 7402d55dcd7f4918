-- ===== src/Resource.antt =====
-- src/resource.rs: a resource is a list of routes, tried in order, and a default service.
pub mod Create
pub mod Dispatch
pub mod Handlers
pub mod Items
mod Tests
use actix_web.Prelude.{
  String, Bool, true, false, ◌&&◌, Option, none, some, List, [], ◌∷◌, ◌++◌, map, if◌then◌else◌,
  Result, ok, err,
}
use actix_web.Futures.{Poll, Fut, ready, not_ready, error, panicked, poll_fut, now}
use actix_web.Http.{HttpRequest, ServiceRequest, HttpTypes, ServiceResponse, new_response}
use actix_web.Filter.{Filter}
use actix_web.Route.{
  Service, RouteBuilder, Route, RouteService, CreateRouteService, build, method, to, new_service,
  poll_create, check_route, call_route,
}

module _ (H : HttpTypes) (P : Type 0) where
  -- `Resource`, without its endpoint. `default` is the content of the shared cell; a service
  -- factory is what its `new_service()` returns.
  pub record Resource : Type 0 where
    pub routes : List (Route H P)
    pub default : Option (Fut (Service H P) (Unit {0}))

  -- `CreateRouteServiceItem`.
  pub data CreateRouteServiceItem : Type 0 where
    future : CreateRouteService H P → CreateRouteServiceItem
    service : RouteService H P → CreateRouteServiceItem

  -- `CreateResourceService`.
  pub record CreateResourceService : Type 0 where
    pub fut : List CreateRouteServiceItem
    pub default : Option (Service H P)
    pub default_fut : Option (Fut (Service H P) (Unit {0}))

  -- `ResourceService`.
  pub record ResourceService : Type 0 where
    pub routes : List (RouteService H P)
    pub default : Option (Service H P)

-- What one pass over the futures has found: whether all are done, an error, or a panic.
pub data Sweep : Type 0 where
  swept : Bool → Sweep
  failed : Sweep
  panic : Sweep

-- `done = false` where a future is not ready.
abbrev pub and_done : Bool → Sweep → Sweep
and_done d (swept done) = swept (d && done)
and_done d failed = failed
and_done d panic = panic

module _ {H : HttpTypes} {P : Type 0} where
  -- `Resource::new`.
  abbrev pub new : Resource H P
  new = record { routes = []; default = none }

  -- `self.routes.push(route)`: what every method below ends with.
  unfoldable pub add_route : Resource H P → Route H P → Resource H P
  add_route r route = record r { routes = r.routes ++ route ∷ [] }

  -- `Resource::route`.
  abbrev pub route : Resource H P → (RouteBuilder → Route H P) → Resource H P
  route r f = add_route r (f build)

  -- `Resource::method`, and by it `get`, `post`, `put`, `delete` and `head`.
  unfoldable pub route_method : Resource H P → String → (RouteBuilder → Route H P) → Resource H P
  unfolding add_route
  route_method r m f = add_route r (f (method build m))

  abbrev pub get : Resource H P → Fut (Service H P) (Unit {0}) → Resource H P
  get r f = route_method r "GET" (λ b. to b f)

  abbrev pub post : Resource H P → Fut (Service H P) (Unit {0}) → Resource H P
  post r f = route_method r "POST" (λ b. to b f)

  abbrev pub put : Resource H P → Fut (Service H P) (Unit {0}) → Resource H P
  put r f = route_method r "PUT" (λ b. to b f)

  abbrev pub delete : Resource H P → Fut (Service H P) (Unit {0}) → Resource H P
  delete r f = route_method r "DELETE" (λ b. to b f)

  abbrev pub head : Resource H P → Fut (Service H P) (Unit {0}) → Resource H P
  head r f = route_method r "HEAD" (λ b. to b f)

  -- `Resource::to` and `to_async`.
  abbrev pub to_handler : Resource H P → Fut (Service H P) (Unit {0}) → Resource H P
  to_handler r f = add_route r (to build f)

  -- `Resource::default_resource`, of the new default's factory.
  unfoldable pub default_resource : Resource H P → Fut (Service H P) (Unit {0}) → Resource H P
  default_resource r d = record r { default = some d }

  -- `NewService::new_service` of `ResourceFactory`.
  unfoldable pub create : Resource H P → CreateResourceService H P
  create r = record {
    fut = map (λ route. future (new_service route)) r.routes;
    default = none;
    default_fut = r.default;
  }

  -- The poll of the default's future, which stays in its place when it is ready.
  unfoldable pub poll_default :
      Option (Service H P)
      → Option (Fut (Service H P) (Unit {0}))
      → Sweep × Option (Service H P) × Option (Fut (Service H P) (Unit {0}))
  poll_default default none = (swept true, default, none)
  poll_default default (some fut) =
      let (p, fut') = poll_fut fut in
      elim p [
        | ready d ↦ (swept true, some d, some fut')
        | not_ready ↦ (swept false, default, some fut')
        | error e ↦ (failed, default, some fut')
        | panicked ↦ (panic, default, some fut')
      ]

  -- One item of the loop; `service` items are passed over.
  unfoldable pub poll_item : CreateRouteServiceItem H P → Sweep × CreateRouteServiceItem H P
  poll_item (service s) = (swept true, service s)
  poll_item (future c) =
      let (p, c') = poll_create c in
      elim p [
        | ready s ↦ (swept true, service s)
        | not_ready ↦ (swept false, future c')
        | error e ↦ (failed, future c')
        | panicked ↦ (panic, future c')
      ]

  -- One round of the loop over the items, which an error leaves at once.
  abbrev pub join_item :
      Sweep × CreateRouteServiceItem H P
      → List (CreateRouteServiceItem H P)
      → Sweep × List (CreateRouteServiceItem H P)
      → Sweep × List (CreateRouteServiceItem H P)
  join_item (swept done, item) items (rest, items') = (and_done done rest, item ∷ items')
  join_item (failed, item) items later = (failed, item ∷ items)
  join_item (panic, item) items later = (panic, item ∷ items)

  -- The loop over the items.
  unfoldable pub poll_items :
      List (CreateRouteServiceItem H P) → Sweep × List (CreateRouteServiceItem H P)
  poll_items [] = (swept true, [])
  poll_items (item ∷ items) = join_item (poll_item item) items (poll_items items)

  -- `self.fut.drain(..).map(..)`: `none` is its `unreachable!()`.
  unfoldable pub drain : List (CreateRouteServiceItem H P) → Option (List (RouteService H P))
  drain [] = some []
  drain (future c ∷ items) = none
  drain (service s ∷ items) = elim (drain items) [ none ↦ none | some ss ↦ some (s ∷ ss) ]

  -- The end of `poll`, when everything is done, with what was drained.
  abbrev pub finish :
      CreateResourceService H P
      → Option (List (RouteService H P))
      → Poll (ResourceService H P) (Unit {0}) × CreateResourceService H P
  finish c none = (panicked, c)
  finish c (some routes) = (
    ready (record { routes = routes; default = c.default }),
    record c { fut = []; default = none },
  )

  abbrev pub after_items :
      CreateResourceService H P
      → Sweep
      → Poll (ResourceService H P) (Unit {0}) × CreateResourceService H P
  after_items c (swept true) = finish c (drain c.fut)
  after_items c (swept false) = (not_ready, c)
  after_items c failed = (error tt, c)
  after_items c panic = (panicked, c)

  -- `poll` behind the poll of the default's future, which an error leaves at once.
  abbrev pub after_default :
      CreateResourceService H P
      → Sweep
      → Sweep × List (CreateRouteServiceItem H P)
      → Poll (ResourceService H P) (Unit {0}) × CreateResourceService H P
  after_default c (swept done) (rest, items) =
      after_items (record c { fut = items }) (and_done done rest)
  after_default c failed items = (error tt, c)
  after_default c panic items = (panicked, c)

  -- `Future::poll` of `CreateResourceService`.
  unfoldable pub poll :
      CreateResourceService H P → Poll (ResourceService H P) (Unit {0}) × CreateResourceService H P
  poll c =
      let (s, default, default_fut) = poll_default c.default c.default_fut in
      after_default (record c { default = default; default_fut = default_fut }) s (poll_items c.fut)

  -- The loop of `call` over the routes, and what stands behind it.
  unfoldable pub call_routes : List (RouteService H P) → Option (Service H P) → Service H P
  call_routes [] (some default) req = default req
  call_routes [] none req = now (ok (new_response H req.req H.not_found))
  call_routes (route ∷ routes) default req =
      let rest = call_routes routes default req in
      if check_route route req then call_route route req else rest

  -- `Service::call` of `ResourceService`.
  unfoldable pub call : ResourceService H P → Service H P
  unfolding call_routes
  call r req = call_routes r.routes r.default req
