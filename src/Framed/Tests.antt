-- ===== src/Framed/Tests.antt =====
-- Handlers that fail (src/framed_handler.rs), and routes that are built for them.
use actix_web.Prelude.{ℕ, ◌+◌, ◌≡◌, refl, none, ok, err, [], ◌∷◌, arith}
use actix_web.Prelude.Text.{codes}
use actix_web.Futures.{Fut, after, ready}
use actix_web.Futures.Direct.{direct}
use actix_web.Http.{HttpTypes}
use actix_web.Framed.{
  FramedExtractor, FramedRequest, FramedRouteService, FramedError, new, map_param, call_route,
}
use actix_web.Framed.Factory.{
  Mapping, map_request, map_next, with_next, with_handler, call_tuple, call_tuple_unit,
}
use actix_web.Framed.Built.{route_of, with_next-outcome, with_handler-outcome}
use actix_web.Handler.Tests.{joins}
use actix_web.Framed.Route.{get, post, with_service, create, poll_create, drive-get}
use actix_web.Futures.Drive.{drive}
use actix_web.Framed.Pipeline.{pipeline, route_future, poll_route-outcome}

abbrev types : HttpTypes
types = record { Response = ℕ; Error = ℕ; not_found = 404; from_error = λ e. e }

abbrev seven : FramedExtractor types ℕ
seven = record { Error = ℕ; into = λ e. e; from_request = λ req. after 2 (ok 7) }

abbrev request : FramedRequest ℕ ℕ
request = record {
  req = record {
    method = "GET";
    path = "/ws";
    query = none;
    header = λ name. none;
    match_path = codes "/ws";
  };
  framed = 1;
  param = 3;
}

abbrev route : FramedRouteService ℕ ℕ ℕ
route = record {
  service = pipeline {H = types} {E = ℕ} direct seven (λ framed n ex. after n (err ex));
  pattern = "/ws";
  methods = "POST" ∷ [];
  headers = [];
}

failing_handler : route_future (call_route ℕ route request) ≡ after 9 (ok tt)
failing_handler =
    poll_route-outcome {E = ℕ} ℕ direct seven (λ framed n ex. after n (err ex)) route request 2
      (ok 7) (λ n. n) (λ n. err 3) refl refl (λ n. refl)

created :
    drive poll_create 4 (create (with_service (get "/ws") (after 3 (ok route.service))))
    ≡ ready (record route { methods = "GET" ∷ [] })
created = drive-get "/ws" route.service 3 3 (omega arith)

-- The state of a request, mapped twice: the second map adds to what the first gave.
abbrev counted : Mapping ℕ (Unit {0}) ℕ ℕ
counted req = after 1 (ok (map_param (λ u. 20) req))

abbrev added : Mapping ℕ ℕ ℕ ℕ
added req = after 2 (ok (map_param (λ n. n + 1) req))

abbrev plain : FramedRequest ℕ (Unit {0})
plain = new request.req 1

-- The handler takes as many polls as its parameter, and fails with what the maps gave.
with_next-outcome_example :
    (service : FramedRequest ℕ (Unit {0}) → Fut (Unit {0}) (FramedError ℕ ℕ)) × (drive poll_create 5
        (create (
          with_next {H = types} direct joins
            (map_next direct joins
              (map_request (get "/ws") (after 4 (ok counted)))
              (after 3 (ok added)))
            tt
            (λ u. seven)
            (call_tuple (λ framed ex n. after n (err ex)))))
      ≡ ready (route_of "/ws" ("GET" ∷ []) [] service))
    × (route_future (call_route ℕ (route_of "/ws" ("GET" ∷ []) [] service) plain)
        ≡ after 12 (ok tt))
with_next-outcome_example =
    with_next-outcome {H = types} ℕ direct joins (get "/ws") tt (λ u. seven)
      (call_tuple (λ framed ex n. after n (err ex))) counted added 4 4 3 plain 1
      (ok (map_param (λ u. 20) plain)) (λ r. 2) (λ r. ok (map_param (λ n. n + 1) r)) (λ r. 2)
      (λ r. ok 7) (λ r n. n) (λ r n. err r.param) (omega arith) (omega arith) refl (λ r. refl)
      (λ r. refl) (λ r n. refl)

with_handler-outcome_example :
    (service : FramedRequest ℕ (Unit {0}) → Fut (Unit {0}) (FramedError ℕ ℕ)) × (drive poll_create 1
        (create (
          with_handler {H = types} direct joins
            (post "/ws")
            tt
            (λ u. seven)
            (call_tuple_unit (λ framed n. after {E = ℕ} n (err framed)))))
      ≡ ready (route_of "/ws" ("POST" ∷ []) [] service))
    × (route_future (call_route ℕ (route_of "/ws" ("POST" ∷ []) [] service) plain)
        ≡ after 9 (ok tt))
with_handler-outcome_example =
    with_handler-outcome {H = types} ℕ direct joins (post "/ws") tt (λ u. seven)
      (call_tuple_unit (λ framed n. after n (err framed))) plain 2 (ok 7) (λ n. n) (λ n. err 1) refl
      (λ n. refl)
