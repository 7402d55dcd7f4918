-- ===== src/Resource/Dispatch.antt =====
-- Which service of src/resource.rs answers a request.
use actix_web.Prelude.{true, false, Option, none, some, List, [], ◌∷◌, ◌++◌, ◌≡◌, refl, ok, All}
use actix_web.Futures.{now}
use actix_web.Http.{ServiceRequest, HttpTypes, new_response}
use actix_web.Route.{Service, RouteService, check_route}
use actix_web.Resource.{ResourceService, call, call_routes}

module _ {H : HttpTypes} {P : Type 0} where
  abbrev pub Refuses : ServiceRequest P → RouteService H P → Type 0
  Refuses req r = check_route r req ≡ false

  -- What answers when no route does: the default, or 404.
  abbrev pub fallback : Option (Service H P) → Service H P
  fallback (some default) req = default req
  fallback none req = now (ok (new_response H req.req H.not_found))

  call_routes_first :
      (before : List (RouteService H P)) (r : RouteService H P) (after : List (RouteService H P))
      (default : Option (Service H P)) (req : ServiceRequest P)
      → All (Refuses req) before
      → check_route r req ≡ true
      → call_routes (before ++ r ∷ after) default req ≡ r.service req
  unfolding call_routes
  call_routes_first [] r after default req h e = rw e refl
  call_routes_first (b ∷ before) r after default req (p, h) e =
      rw p (call_routes_first before r after default req h e)

  call_routes_none :
      (routes : List (RouteService H P)) (default : Option (Service H P)) (req : ServiceRequest P)
      → All (Refuses req) routes
      → call_routes routes default req ≡ fallback default req
  unfolding call_routes
  call_routes_none [] (some d) req h = refl
  call_routes_none [] none req h = refl
  call_routes_none (r ∷ routes) default req (p, h) = rw p (call_routes_none routes default req h)

-- A request is answered by the first route whose filters all accept it, whatever routes stand
-- behind that one and whatever the default is.
pub call-first :
    {H : HttpTypes} {P : Type 0} (req : ServiceRequest P) (before after : List (RouteService H P))
    (r : RouteService H P) (default : Option (Service H P))
    → All (Refuses req) before
    → check_route r req ≡ true
    → call (record { routes = before ++ r ∷ after; default = default }) req ≡ r.service req
unfolding call
call-first req before after r default h accepts =
    call_routes_first before r after default req h accepts

-- A request that every route refuses is answered by the default service, or by 404 at once where
-- there is none.
pub call-refused :
    {H : HttpTypes} {P : Type 0} (rs : ResourceService H P) (req : ServiceRequest P)
    → All (Refuses req) rs.routes
    → call rs req ≡ fallback rs.default req
unfolding call
call-refused rs req h = call_routes_none rs.routes rs.default req h
