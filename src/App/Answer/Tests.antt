-- ===== src/App/Answer/Tests.antt =====
-- An application with a handler behind another route (src/app.rs), started and called.
use actix_web.Prelude.{ℕ, zero, ◌+◌, ◌≡◌, refl, none, inl, some, List, [], ◌∷◌, ok, arith, String}
use actix_web.Prelude.Text.{codes}
use actix_web.Futures.{now, after}
use actix_web.Futures.Direct.{direct}
use actix_web.Http.{HttpTypes, ServiceRequest, new_response, absent, stream}
use actix_web.Route.Check.{Accepts, Rejects}
use actix_web.Filter.{nil, cons, get, post, check}
use actix_web.Route.{Service, RouteService}
use actix_web.Handler.{Responder, FromRequest}
use actix_web.Resource.{call as call_resource}
use actix_web.Resource.Create.{drive-create_plain}
use actix_web.Resource.Items.{Pending, built, routes_of}
use actix_web.App.{
  RouterTypes, call, into_new_service, create_app, new_service, add_resource, default_resource,
  middleware,
}
use actix_web.App.Create.{AllDoneBy, drive_resource-ReadyWithin}
use actix_web.App.Defaults.{Step, resource}
use actix_web.App.Dispatch.{started}
use actix_web.App.Answer.{handler_route, call-answer}

abbrev types : HttpTypes
types = record { Response = ℕ; Error = ℕ; not_found = 404; from_error = λ e. e }

abbrev paths : RouterTypes
paths = record {
  ResourceDef = String;
  new_def = λ path. path;
  recognize = λ rdefs req. (some zero, req);
}

-- A number that is late, and takes the payload.
abbrev seven : FromRequest types ℕ ℕ
seven = record {
  Error = ℕ;
  into = λ e. e;
  from_request = λ req. (after 2 (ok 7), record req { payload = absent });
}

abbrev slow : Responder types ℕ
slow = record { Error = ℕ; into = λ e. e; respond_to = λ n req. after 1 (ok (200 + n)) }

abbrev refusing : RouteService types ℕ
refusing = record {
  service = λ req. now (ok (new_response types req.req 200));
  filters = cons get nil;
}

abbrev handling : RouteService types ℕ
handling = handler_route direct seven slow (λ n. n + 1) (cons post nil)

abbrev pending : List (Pending types ℕ)
pending = record { wait = 0; built = refusing } ∷ record { wait = 1; built = handling } ∷ []

abbrev steps : List (Step paths types ℕ)
steps = resource "/sum" (λ r. record r { routes = routes_of pending }) ∷ []

abbrev services : List (String × Service types ℕ)
services = ("/sum", call_resource (record { routes = built pending; default = none })) ∷ []

abbrev request : ServiceRequest ℕ
request = record {
  req = record {
    method = "POST";
    path = "/sum";
    query = none;
    header = λ name. none;
    match_path = codes "/sum";
  };
  payload = stream 3;
}

services_created : AllDoneBy {R = paths} 1 services (started steps)
unfolding create_app into_new_service new_service add_resource default_resource middleware
services_created =
    ((refl, drive_resource-ReadyWithin 1 _ _ (drive-create_plain 1 pending (omega arith))), tt)

refuses : Rejects refusing.filters request.req
unfolding check
refuses = inl refl

accepts : Accepts handling.filters request.req
unfolding check
accepts = (refl, tt)

call-answer_example :
    call {R = paths} (record { router = services }) request
    ≡ after 3 (ok (new_response types request.req 208))
call-answer_example =
    call-answer direct seven slow (λ n. n + 1) (cons post nil) 1 0 0 steps services "/sum"
      (routes_of pending) none (refusing ∷ []) [] none request request.req
      (record request { payload = absent }) 2 (ok 7) (λ n. 1) (λ n. ok (200 + (n + 1)))
      services_created refl refl (drive-create_plain 1 pending (omega arith)) refl (refuses, tt)
      accepts refl (λ n. refl)
