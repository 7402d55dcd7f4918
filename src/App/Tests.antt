-- ===== src/App/Tests.antt =====
-- An application of two resources with a middleware between them (src/app.rs), started and called.
use text.Mathlib.Text.{◌==◌ as str_eq}
use actix_web.Prelude.{
  ℕ, zero, suc, false, ◌≡◌, refl, ◌≤◌, Option, none, some, List, [], ◌∷◌, ok, arith, if◌then◌else◌,
  String,
}
use actix_web.Prelude.Text.{codes}
use actix_web.Futures.{later, Fut, ready, now, after}
use actix_web.Http.{HttpTypes, ServiceRequest, new_response, absent}
use actix_web.Filter.{nil, cons, get, check}
use actix_web.Route.{Service, check_route}
use actix_web.Resource.{Resource, call as call_resource}
use actix_web.Resource.Create.{drive-create_plain, drive-create_default}
use actix_web.Resource.Items.{Pending, built, routes_of}
use actix_web.App.{
  RouterTypes, call, new, into_new_service, create_app, new_service, add_resource, default_resource,
  middleware, resource_factory,
}
use actix_web.App.Create.{drive, drive-ready, AllDoneBy, drive_resource-ReadyWithin}
use actix_web.App.Defaults.{Step, resource, default_to, wrapped, run, into_new_service-run}
use actix_web.Futures.Direct.{direct}
use actix_web.Handler.Tests.{joins}
use actix_web.State.{from_request}
use actix_web.State.Registered.{Served, of_state, of_factory, configure, serve_state}
use actix_web.State.Tests.{small, none_set, calls}
use actix_web.App.Server.{server_future, call_server, server_future-serves}
use actix_web.App.Dispatch.{started, call-resource, call-default}

abbrev types : HttpTypes
types = record { Response = ℕ; Error = ℕ; not_found = 404; from_error = λ e. e }

abbrev answer : ℕ → Service types ℕ
answer n req = now (ok (new_response types req.req n))

-- Patterns that are paths, the first of which that is the path of the request is taken.
abbrev next_place : Option ℕ → Option ℕ
next_place none = none
next_place (some i) = some (suc i)

abbrev place : String → List String → Option ℕ
place path [] = none
place path (rdef ∷ rdefs) =
    let rest = next_place (place path rdefs) in if str_eq path rdef then some zero else rest

abbrev paths : RouterTypes
paths = record {
  ResourceDef = String;
  new_def = λ path. path;
  recognize = λ rdefs req. (place req.path rdefs, req);
}

abbrev pending : List (Pending types ℕ)
pending = record { wait = 1; built = record { service = answer 200; filters = cons get nil } } ∷ []

abbrev add_routes : Resource types ℕ → Resource types ℕ
add_routes r = record r { routes = routes_of pending }

abbrev default_405 : Fut (Service types ℕ) (Unit {0})
default_405 = after 2 (ok (answer 405))

abbrev steps : List (Step paths types ℕ)
steps =
    resource "/old" add_routes
    ∷ wrapped later
    ∷ resource "/new" add_routes
    ∷ default_to default_405
    ∷ []

abbrev services : List (String × Service types ℕ)
services =
    ("/old", call_resource (record { routes = built pending; default = none }))
    ∷ ("/new", call_resource (record { routes = built pending; default = some (answer 405) }))
    ∷ []

abbrev request : ServiceRequest ℕ
request = record {
  req = record {
    method = "POST";
    path = "/new";
    query = none;
    header = λ name. none;
    match_path = codes "/new";
  };
  payload = absent;
}

services_created : AllDoneBy {R = paths} 2 services (started steps)
unfolding create_app into_new_service new_service add_resource default_resource middleware
services_created = (
  (refl, drive_resource-ReadyWithin 2 _ _ (drive-create_plain 2 pending (omega arith))),
  (
    (
      refl,
      drive_resource-ReadyWithin 2 _ _ (drive-create_default 2 pending (answer 405) (omega arith)),
    ),
    tt,
  ),
)

refuses : check_route (record { service = answer 200; filters = cons get nil }) request ≡ false
unfolding check_route check
refuses = refl

into_new_service-run_example : into_new_service (run new steps) ≡ record {
  services =
      ("/old", resource_factory (routes_of pending) 0)
      ∷ ("/new", resource_factory (routes_of pending) 1)
      ∷ [];
  cells = none ∷ some default_405 ∷ [];
}
into_new_service-run_example = into_new_service-run steps

services_ready : drive 3 (started steps) ≡ ready (record { router = services })
services_ready = drive-ready 2 services (started steps) services_created

call-resource_example :
    (drive 3 (started steps) ≡ ready (record { router = services }))
    × (call {R = paths} (record { router = services }) request
        ≡ call_resource (record { routes = built pending; default = some (answer 405) }) request)
call-resource_example =
    call-resource 2 1 1 steps services "/new" (routes_of pending) (some default_405)
      (record { routes = built pending; default = some (answer 405) }) request request.req
      services_created refl refl (drive-create_default 2 pending (answer 405) (omega arith)) refl

call-default_example : call {R = paths} (record { router = services }) request ≡ answer 405 request
call-default_example =
    call-default 2 1 1 steps services "/new" pending (answer 405) request request.req
      services_created refl refl (omega arith) refl (refuses, tt)

-- The state of type 2 that was set again, found in a request to this application; its middleware takes
-- a poll more to create.
server_future-serves_example :
    (k : ℕ) × (e : ℕ → Option (ℕ × ℕ)) × (r : Served small ℕ) × (k ≤ 2)
    × (server_future small joins 3 (configure [] calls) none_set (run new steps)
        ≡ after (suc k) (ok (e, call {R = paths} (record { router = services }))))
    × (serve_state codes e request ≡ now (ok r))
    × (from_request small r.extensions 2 ≡ ok (2, 20))
    × (call_server small direct codes (e, call {R = paths} (record { router = services })) request
        ≡ call {R = paths} (record { router = services }) r.req)
server_future-serves_example =
    server_future-serves small joins direct
      (of_state (2, 10) ∷ of_factory (9, 0) (after 1 (ok (5, 50))) ∷ []) (of_state (2, 20)) []
      none_set codes 2 steps services request suc (call {R = paths} (record { router = services }))
      tt services_created (λ k h. refl)
