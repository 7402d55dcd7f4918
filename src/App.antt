-- ===== src/App.antt =====
-- src/app.rs, with the boxed services of its own HttpNewService: an application is a list of services,
-- each behind a pattern, which the router of `actix_router`, a parameter, tells apart.
pub mod Answer
pub mod Create
pub mod Defaults
pub mod Dispatch
pub mod Server
mod Tests
use actix_web.Prelude.{
  ℕ, zero, suc, String, true, false, Option, none, some, List, [], ◌∷◌, ◌++◌, map, length, ok,
  get_elem?,
}
use actix_web.Futures.{Poll, Fut, ready, not_ready, error, panicked, poll_fut, now}
use actix_web.Http.{HttpRequest, into_request, HttpTypes, new_response}
use actix_web.Route.{Service, Route}
use actix_web.Resource.{
  Resource, CreateResourceService, ResourceService, Sweep, swept, failed, panic, and_done, create,
  new as new_resource, poll as poll_resource, call as call_resource,
}

-- What the module takes from `actix_router`.
pub record RouterTypes : Type 1 where
  pub ResourceDef : Type 0
  -- `ResourceDef::new`
  pub new_def : String → ResourceDef
  -- `Router::recognize_mut` of the router that was built of these patterns, in this order: the
  -- place of the service, if there is one, and the request with its match info.
  pub recognize : List ResourceDef → HttpRequest → Option ℕ × HttpRequest

-- A service factory: `HttpNewService` of a resource, by its routes and the cell of its default,
-- or of a custom factory, by what its `new_service()` returns.
pub data NewService (H : HttpTypes) (P : Type 0) : Type 0 where
  resource_factory : List (Route H P) → ℕ → NewService H P
  custom : Fut (Service H P) (Unit {0}) → NewService H P

-- The future that `HttpNewService::new_service` returns.
pub data HttpServiceFut (H : HttpTypes) (P : Type 0) : Type 0 where
  creating : CreateResourceService H P → HttpServiceFut H P
  boxed : Fut (Service H P) (Unit {0}) → HttpServiceFut H P

-- The cells of the defaults, which an application and its resources share; a resource knows its
-- own by the place in this list.
abbrev pub Cells : HttpTypes → Type 0 → Type 0
Cells H P = List (Option (Fut (Service H P) (Unit {0})))

module _ (R : RouterTypes) (H : HttpTypes) (P : Type 0) where
  -- `App`, without its state, and with the cells that it shares. Its endpoint is what it makes of the
  -- future of the service of `AppEntry`: each middleware wraps that, by `ApplyNewService`.
  pub record App : Type 0 where
    pub services : List (R.ResourceDef × NewService H P)
    pub default : Option (Fut (Service H P) (Unit {0}))
    pub defaults : List ℕ
    pub cells : Cells H P
    pub endpoint : Fut (Service H P) (Unit {0}) → Fut (Service H P) (Unit {0})

  -- `AppFactory`, with the cells that its resources share.
  pub record AppFactory : Type 0 where
    pub services : List (R.ResourceDef × NewService H P)
    pub cells : Cells H P

  -- `CreateAppServiceItem`.
  pub data CreateAppServiceItem : Type 0 where
    future : R.ResourceDef → HttpServiceFut H P → CreateAppServiceItem
    service : R.ResourceDef → Service H P → CreateAppServiceItem

  -- `AppService`; its router is the list of what was registered in it.
  pub record AppService : Type 0 where
    pub router : List (R.ResourceDef × Service H P)

-- `if cell.is_none() { *cell = default }`, of one cell.
abbrev pub fill {ℓ} : {D : Type ℓ} → D → ℕ → List (Option D) → List (Option D)
fill d i [] = []
fill d zero (none ∷ cells) = some d ∷ cells
fill d zero (some own ∷ cells) = some own ∷ cells
fill d (suc i) (cell ∷ cells) = cell ∷ fill d i cells

-- The loop over `self.defaults`.
abbrev pub fill_all {ℓ} : {D : Type ℓ} → D → List ℕ → List (Option D) → List (Option D)
fill_all d [] cells = cells
fill_all d (i ∷ defaults) cells = fill_all d defaults (fill d i cells)

-- `if self.default.is_some()`.
abbrev pub fill_default {ℓ} : {D : Type ℓ} → Option D → List ℕ → List (Option D) → List (Option D)
fill_default none defaults cells = cells
fill_default (some d) defaults cells = fill_all d defaults cells

module _ {H : HttpTypes} {P : Type 0} where
  -- `HttpNewService::new_service`; a resource's factory reads its cell.
  unfoldable pub new_service : Cells H P → NewService H P → HttpServiceFut H P
  new_service cells (resource_factory routes cell) = elim (get_elem? cells cell) [
    | some default ↦ creating (create (record { routes = routes; default = default }))
    | none ↦ creating (create (record { routes = routes; default = none }))
  ]
  new_service cells (custom fut) = boxed fut

  -- What the poll of a resource's future gives when the service is boxed.
  abbrev pub box_poll :
      Poll (ResourceService H P) (Unit {0}) × CreateResourceService H P
      → Poll (Service H P) (Unit {0}) × HttpServiceFut H P
  box_poll (ready s, c) = (ready (call_resource s), creating c)
  box_poll (not_ready, c) = (not_ready, creating c)
  box_poll (error e, c) = (error e, creating c)
  box_poll (panicked, c) = (panicked, creating c)

  -- The poll of the boxed future.
  unfoldable pub poll_service :
      HttpServiceFut H P → Poll (Service H P) (Unit {0}) × HttpServiceFut H P
  poll_service (boxed fut) = let (p, fut') = poll_fut fut in (p, boxed fut')
  poll_service (creating c) = box_poll (poll_resource c)

  -- `Service::call` of `AppService`, of the place that the router found.
  abbrev pub call_found {ℓ} : {D : Type ℓ} → List (D × Service H P) → Option ℕ → Service H P
  call_found router none req = now (ok (new_response H (into_request req) H.not_found))
  call_found router (some i) req = elim (get_elem? router i) [
    | some (rdef, srv) ↦ srv req
    | none ↦ now (ok (new_response H (into_request req) H.not_found))
  ]

module _ {R : RouterTypes} {H : HttpTypes} {P : Type 0} where
  -- `App::create`.
  abbrev pub new : App R H P
  new = record {
    services = [];
    default = none;
    defaults = [];
    cells = [];
    endpoint = λ entry. entry;
  }

  -- `App::resource`, with `resource.get_default()` and `resource.into_new_service()`.
  unfoldable pub add_resource : App R H P → String → (Resource H P → Resource H P) → App R H P
  add_resource a path f =
      let r = f new_resource in
      let cell = length a.cells in
      record a {
        cells = a.cells ++ r.default ∷ [];
        defaults = a.defaults ++ cell ∷ [];
        services = a.services ++ (R.new_def path, resource_factory r.routes cell) ∷ [];
      }

  -- `App::default_resource`, of what the factory's `new_service()` returns.
  unfoldable pub default_resource : App R H P → Fut (Service H P) (Unit {0}) → App R H P
  default_resource a d = record a { default = some d }

  -- `App::service`.
  unfoldable pub add_service : App R H P → R.ResourceDef → Fut (Service H P) (Unit {0}) → App R H P
  add_service a rdef factory = record a { services = a.services ++ (rdef, custom factory) ∷ [] }

  -- `App::middleware`, which makes a new `App` of the old one's parts; `mw` is what
  -- `ApplyNewService::new(mw, ..)` makes of the future of the endpoint's service.
  unfoldable pub middleware :
      App R H P → (Fut (Service H P) (Unit {0}) → Fut (Service H P) (Unit {0})) → App R H P
  middleware a mw = record {
    services = a.services;
    default = a.default;
    defaults = [];
    cells = a.cells;
    endpoint = λ entry. mw (a.endpoint entry);
  }

  -- `App::into_new_service`.
  unfoldable pub into_new_service : App R H P → AppFactory R H P
  into_new_service a = record {
    services = a.services;
    cells = fill_default a.default a.defaults a.cells;
  }

  -- `AppFactory::new_service`.
  unfoldable pub create_app : AppFactory R H P → List (CreateAppServiceItem R H P)
  create_app a = map (λ s. future s.0 (new_service a.cells s.1)) a.services

  -- One item of the loop of `CreateAppService::poll`, by what its future gave.
  abbrev pub settle :
      R.ResourceDef
      → Poll (Service H P) (Unit {0}) × HttpServiceFut H P
      → Sweep × CreateAppServiceItem R H P
  settle path (ready s, fut) = (swept true, service path s)
  settle path (not_ready, fut) = (swept false, future path fut)
  settle path (error e, fut) = (failed, future path fut)
  settle path (panicked, fut) = (panic, future path fut)

  unfoldable pub poll_item : CreateAppServiceItem R H P → Sweep × CreateAppServiceItem R H P
  poll_item (service path s) = (swept true, service path s)
  poll_item (future path fut) = settle path (poll_service fut)

  -- One round of the loop, which an error leaves at once.
  abbrev pub join_item :
      Sweep × CreateAppServiceItem R H P
      → List (CreateAppServiceItem R H P)
      → Sweep × List (CreateAppServiceItem R H P)
      → Sweep × List (CreateAppServiceItem R H P)
  join_item (swept done, item) items (rest, items') = (and_done done rest, item ∷ items')
  join_item (failed, item) items rest = (failed, item ∷ items)
  join_item (panic, item) items rest = (panic, item ∷ items)

  unfoldable pub poll_items :
      List (CreateAppServiceItem R H P) → Sweep × List (CreateAppServiceItem R H P)
  poll_items [] = (swept true, [])
  poll_items (item ∷ items) = join_item (poll_item item) items (poll_items items)

  -- `self.fut.drain(..).fold(Router::build(), ..)`: `none` is its `unreachable!()`.
  unfoldable pub drain :
      List (CreateAppServiceItem R H P) → Option (List (R.ResourceDef × Service H P))
  drain [] = some []
  drain (future path fut ∷ items) = none
  drain (service path s ∷ items) = elim (drain items) [
    | none ↦ none
    | some ss ↦ some ((path, s) ∷ ss)
  ]

  abbrev pub finish :
      List (CreateAppServiceItem R H P)
      → Option (List (R.ResourceDef × Service H P))
      → Poll (AppService R H P) (Unit {0}) × List (CreateAppServiceItem R H P)
  finish items none = (panicked, items)
  finish items (some router) = (ready (record { router = router }), [])

  abbrev pub after_items :
      Sweep × List (CreateAppServiceItem R H P)
      → Poll (AppService R H P) (Unit {0}) × List (CreateAppServiceItem R H P)
  after_items (swept true, items) = finish items (drain items)
  after_items (swept false, items) = (not_ready, items)
  after_items (failed, items) = (error tt, items)
  after_items (panic, items) = (panicked, items)

  -- `Future::poll` of `CreateAppService`, which is its list of items.
  unfoldable pub poll :
      List (CreateAppServiceItem R H P)
      → Poll (AppService R H P) (Unit {0}) × List (CreateAppServiceItem R H P)
  poll items = after_items (poll_items items)

  -- `Service::call` of `AppService`.
  unfoldable pub call : AppService R H P → Service H P
  call a req =
      let (found, req') = R.recognize (map (λ s. s.0) a.router) req.req in
      call_found a.router found (record req { req = req' })
