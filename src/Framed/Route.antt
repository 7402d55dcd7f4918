-- ===== src/Framed/Route.antt =====
-- The builders of src/framed_route.rs, and how the service of a route is created.
use actix_web.Prelude.{ℕ, zero, suc, ◌≤◌, String, List, [], ◌∷◌, ◌++◌, ok, ◌≡◌, refl, arith}
use actix_web.Futures.{Poll, Fut, ready, not_ready, error, panicked, poll_fut, after}
use actix_web.Futures.Drive.{drive}
use actix_web.Framed.{FramedError, FramedRequest, FramedRouteService}

-- `FramedRoutePatternBuilder`.
pub record FramedRoutePatternBuilder : Type 0 where
  pub pattern : String
  pub methods : List String
  pub headers : List (String × String)

-- `FramedRoute::build`, which is `FramedRoutePatternBuilder::new`.
abbrev pub build : String → FramedRoutePatternBuilder
build path = record { pattern = path; methods = []; headers = [] }

-- `FramedRoutePatternBuilder::method`.
abbrev pub add_method : FramedRoutePatternBuilder → String → FramedRoutePatternBuilder
add_method b method = record b { methods = b.methods ++ method ∷ [] }

-- `FramedRoute::get`, `post`, `put` and `delete`.
abbrev pub get : String → FramedRoutePatternBuilder
get path = add_method (build path) "GET"

abbrev pub post : String → FramedRoutePatternBuilder
post path = add_method (build path) "POST"

abbrev pub put : String → FramedRoutePatternBuilder
put path = add_method (build path) "PUT"

abbrev pub delete : String → FramedRoutePatternBuilder
delete path = add_method (build path) "DELETE"

module _ (F Ex G : Type 0) where
  abbrev pub Service : Type 0
  Service = FramedRequest F Ex → Fut (Unit {0}) (FramedError G F)

  -- `FramedRoute`, and `FramedRouteFactory`, which has the same fields; its service is what
  -- `self.service.new_service()` returns.
  pub record FramedRoute : Type 0 where
    pub service : Fut Service (Unit {0})
    pub pattern : String
    pub methods : List String
    pub headers : List (String × String)

  -- `CreateRouteService`.
  pub record CreateRouteService : Type 0 where
    pub fut : Fut Service (Unit {0})
    pub pattern : String
    pub methods : List String
    pub headers : List (String × String)

module _ {F Ex G : Type 0} where
  -- `FramedRoutePatternBuilder::with`, of the service that is made of the handler.
  abbrev pub with_service :
      FramedRoutePatternBuilder → Fut (Service F Ex G) (Unit {0}) → FramedRoute F Ex G
  with_service b service = record {
    service = service;
    pattern = b.pattern;
    methods = b.methods;
    headers = b.headers;
  }

  -- `FramedRoute::method` and `header`.
  abbrev pub route_method : FramedRoute F Ex G → String → FramedRoute F Ex G
  route_method r method = record r { methods = r.methods ++ method ∷ [] }

  abbrev pub header : FramedRoute F Ex G → String → String → FramedRoute F Ex G
  header r name value = record r { headers = r.headers ++ (name, value) ∷ [] }

  -- `NewService::new_service` of `FramedRouteFactory`.
  abbrev pub create : FramedRoute F Ex G → CreateRouteService F Ex G
  create r = record {
    fut = r.service;
    pattern = r.pattern;
    methods = r.methods;
    headers = r.headers;
  }

  abbrev pub created :
      CreateRouteService F Ex G
      → Poll (Service F Ex G) (Unit {0}) × Fut (Service F Ex G) (Unit {0})
      → Poll (FramedRouteService F Ex G) (Unit {0}) × CreateRouteService F Ex G
  created c (ready service, fut) = (
    ready (record {
      service = service;
      pattern = c.pattern;
      methods = c.methods;
      headers = c.headers;
    }),
    record c { fut = fut },
  )
  created c (not_ready, fut) = (not_ready, record c { fut = fut })
  created c (error e, fut) = (error e, record c { fut = fut })
  created c (panicked, fut) = (panicked, record c { fut = fut })

  -- `Future::poll` of `CreateRouteService`.
  unfoldable pub poll_create :
      CreateRouteService F Ex G
      → Poll (FramedRouteService F Ex G) (Unit {0}) × CreateRouteService F Ex G
  poll_create c = created c (poll_fut c.fut)

  pub drive_created :
      (n m : ℕ) (service : Service F Ex G) (pattern : String) (methods : List String)
      (headers : List (String × String))
      → m ≤ n
      → drive poll_create (suc n) (record {
        fut = after m (ok service);
        pattern = pattern;
        methods = methods;
        headers = headers;
      })
        ≡ ready
            (record { service = service; pattern = pattern; methods = methods; headers = headers })
  unfolding drive poll_create
  drive_created n zero service pattern methods headers h = refl
  drive_created zero (suc m) service pattern methods headers h = absurd (omega arith)
  drive_created (suc n) (suc m) service pattern methods headers h =
      drive_created n m service pattern methods headers (omega arith)

-- A route for a path and the method GET, whose service is created within n + 1 polls, is created by
-- then, with this service, path and method.
pub drive-get :
    {F Ex G : Type 0} (path : String) (service : Service F Ex G) (n m : ℕ)
    → m ≤ n
    → drive poll_create (suc n) (create (with_service (get path) (after m (ok service))))
      ≡ ready (record { service = service; pattern = path; methods = "GET" ∷ []; headers = [] })
drive-get path service n m h = drive_created n m service path ("GET" ∷ []) [] h
