-- ===== src/Resource/Tests.antt =====
-- A resource of two routes (src/resource.rs), created and called.
use actix_web.Prelude.{ℕ, ◌≡◌, refl, true, false, none, some, List, [], ◌∷◌, ok, arith}
use actix_web.Prelude.Text.{codes}
use actix_web.Futures.{ready, panicked, now, after}
use actix_web.Http.{HttpTypes, ServiceRequest, new_response, absent}
use actix_web.Filter.{nil, cons, get, post, check}
use actix_web.Route.{Service, RouteService, check_route}
use actix_web.Resource.{call, create}
use actix_web.Resource.Create.{drive, drive-create_plain, drive-create_default, drive-create_panics}
use actix_web.Resource.Items.{Pending, resource, built}
use actix_web.Resource.Dispatch.{call-first, call-refused}

-- Responses and errors by their status.
abbrev types : HttpTypes
types = record { Response = ℕ; Error = ℕ; not_found = 404; from_error = λ e. e }

abbrev answer : ℕ → Service types ℕ
answer n req = now (ok (new_response types req.req n))

abbrev get_route : RouteService types ℕ
get_route = record { service = answer 200; filters = cons get nil }

abbrev post_route : RouteService types ℕ
post_route = record { service = answer 201; filters = cons post nil }

abbrev request : ServiceRequest ℕ
request = record {
  req = record {
    method = "POST";
    path = "/";
    query = none;
    header = λ name. none;
    match_path = codes "/";
  };
  payload = absent;
}

abbrev pending : List (Pending types ℕ)
pending = record { wait = 2; built = get_route } ∷ record { wait = 0; built = post_route } ∷ []

get_refuses : check_route get_route request ≡ false
unfolding check_route check
get_refuses = refl

post_accepts : check_route post_route request ≡ true
unfolding check_route check
post_accepts = refl

first_route_answers :
    call (record { routes = get_route ∷ post_route ∷ []; default = none }) request
    ≡ answer 201 request
first_route_answers =
    call-first request (get_route ∷ []) [] post_route none (get_refuses, tt) post_accepts

refused_404 : call (record { routes = get_route ∷ []; default = none }) request ≡ answer 404 request
refused_404 =
    call-refused (record { routes = get_route ∷ []; default = none }) request (get_refuses, tt)

one_route_created :
    drive 3 (create (resource pending none))
    ≡ ready (record { routes = built pending; default = none })
one_route_created = drive-create_plain 2 pending (omega arith)

drive-create_default_example :
    drive 4 (create (resource pending (some (after 3 (ok (answer 405))))))
    ≡ ready (record { routes = built pending; default = some (answer 405) })
drive-create_default_example = drive-create_default 3 pending (answer 405) (omega arith)

drive-create_panics_example :
    drive 2 (create (resource pending (some (after 0 (ok (answer 405)))))) ≡ panicked
drive-create_panics_example = drive-create_panics 0 pending (answer 405) (omega arith)
