-- ===== src/Resource/Handlers.antt =====
-- A resource (src/resource.rs) whose routes are built for handlers (src/route.rs, src/handler.rs):
-- from `Resource::route` with `RouteBuilder::to` to the answer.
use actix_web.Prelude.{
  ℕ, none, List, [], ◌∷◌, ◌++◌, ◌≡◌, refl, sym, ap, ◌∙◌, Result, All, map, append_assoc, append_nil,
  arith, ◌≤◌,
}
use actix_web.Futures.{Fut, after, ready}
use actix_web.Futures.Combinators.{Combinators}
use actix_web.Http.{HttpTypes, ServiceRequest}
use actix_web.Handler.{Responder, FromRequest}
use actix_web.Handler.Pipeline.{pipeline}
use actix_web.Handler.Answer.{pipeline-answer, answer_of}
use actix_web.Handler.Factory.{Joins, route_to, route_to_async, route_to-now}
use actix_web.Route.{RouteBuilder, Route, build, to, check_route}
use actix_web.Route.Check.{Accepts, Rejects, Accepts-check_filters, Rejects-check_filters}
use actix_web.Resource.{Resource, ResourceService, new, add_route, route, create, call}
use actix_web.Resource.Items.{Pending, built, resource, route_of}
use actix_web.Resource.Create.{drive, drive-create_plain}
use actix_web.Resource.Dispatch.{call-first, Refuses}

-- A handler, and what is called on the builder of its route before `to`.
pub record Handled (T R : Type 0) : Type 0 where
  pub builder : RouteBuilder → RouteBuilder
  pub hnd : T → R

module _ {H : HttpTypes} {P : Type 0} (C : Combinators) (J : Joins) where
  -- `Resource::to`.
  abbrev pub resource_to :
      {T R : Type 0} → Resource H P → FromRequest H P T → Responder H R → (T → R) → Resource H P
  resource_to r t resp hnd = add_route r (route_to C J build t resp hnd)

  -- `Resource::to_async`.
  abbrev pub resource_to_async :
      {T A E : Type 0}
      → Resource H P
      → FromRequest H P T
      → (A → H.Response)
      → (E → H.Error)
      → (T → Fut A E)
      → Resource H P
  resource_to_async r t into_response into hnd =
      add_route r (route_to_async C J build t into_response into hnd)

  module _ {T R : Type 0} (t : FromRequest H P T) (resp : Responder H R) where
    -- Calls of `Resource::route`, one after the other.
    unfoldable pub register : Resource H P → List (Handled T R) → Resource H P
    register r [] = r
    register r (h ∷ hs) = register (route r (λ b. route_to C J (h.builder b) t resp h.hnd)) hs

    abbrev pending : Handled T R → Pending H P
    pending h = record {
      wait = 0;
      built = record { service = pipeline H C t resp h.hnd; filters = (h.builder build).filters };
    }

    abbrev routes_of : List (Handled T R) → List (Route H P)
    routes_of hs = (resource (map pending hs) none).routes

    abbrev plain : List (Route H P) → Resource H P
    plain routes = record { routes = routes; default = none }

    register-routes :
        (routes : List (Route H P)) (hs : List (Handled T R))
        → register (plain routes) hs ≡ plain (routes ++ routes_of hs)
    unfolding register add_route to
    register-routes routes [] = ap plain (sym (append_nil routes))
    register-routes routes (h ∷ hs) =
        ap (λ route. register (plain (routes ++ route ∷ [])) hs)
          (route_to-now C J (h.builder build) t resp h.hnd)
        ∙ register-routes (routes ++ route_of (pending h) ∷ []) hs
        ∙ ap plain (append_assoc routes (route_of (pending h) ∷ []) (routes_of hs))

    register-new : (hs : List (Handled T R)) → register new hs ≡ resource (map pending hs) none
    register-new hs = register-routes [] hs

    built-append :
        (before : List (Handled T R)) (h : Handled T R) (after : List (Handled T R))
        → built (map pending (before ++ h ∷ after))
          ≡ built (map pending before) ++ (pending h).built ∷ built (map pending after)
    built-append [] h after = refl
    built-append (b ∷ before) h after =
        ap (λ rs. (pending b).built ∷ rs) (built-append before h after)

    -- This handler is not for the request: one of its filters refuses it.
    abbrev pub NotFor : ServiceRequest P → Handled T R → Type 0
    NotFor req h = Rejects (h.builder build).filters req.req

    All-Refuses :
        (req : ServiceRequest P) (hs : List (Handled T R))
        → All (NotFor req) hs
        → All (Refuses req) (built (map pending hs))
    unfolding check_route
    All-Refuses req [] h = tt
    All-Refuses req (x ∷ hs) (p, h) =
        (Rejects-check_filters (x.builder build).filters req.req p, All-Refuses req hs h)

    All-at_once : (hs : List (Handled T R)) → All (λ w. w.wait ≤ 0) (map pending hs)
    All-at_once [] = tt
    All-at_once (x ∷ hs) = (omega arith, All-at_once hs)

-- A resource whose routes were registered one after the other, each for a handler behind the filters
-- of its builder, is created by its first poll. A request is then answered by the first handler
-- of whose filters none refuses it: where the extraction takes m polls and fails, after m polls by the
-- response of that error; where it gives an item and the handler's value responds in k polls, after
-- m + k polls by that response, or by the response of its error.
pub register-answer :
    {H : HttpTypes} {P T R : Type 0} (C : Combinators) (J : Joins) (t : FromRequest H P T)
    (resp : Responder H R) (before behind : List (Handled T R)) (h : Handled T R)
    (req req' : ServiceRequest P) (m : ℕ) (x : Result T t.Error) (wait : T → ℕ)
    (result : T → Result H.Response resp.Error)
    → All (NotFor C J t resp req) before
    → Accepts (h.builder build).filters req.req
    → t.from_request req ≡ (after m x, req')
    → ((item : T) → resp.respond_to (h.hnd item) req'.req ≡ after (wait item) (result item))
    → (rs : ResourceService H P) × (drive 1
          (create (register C J t resp new (before ++ h ∷ behind)))
        ≡ ready rs)
      × (call rs req ≡ answer_of H t.into (λ res. res) resp.into req' m wait result x)
unfolding check_route
register-answer {H} C J t resp before behind h req req' m x wait result refused accepted e k = (
  record { routes = built (map (pending C J t resp) (before ++ h ∷ behind)); default = none },
  ap (λ r. drive 1 (create r)) (register-new C J t resp (before ++ h ∷ behind))
      ∙ drive-create_plain 0 (map (pending C J t resp) (before ++ h ∷ behind))
          (All-at_once C J t resp (before ++ h ∷ behind)),
  ap (λ routes. call (record { routes = routes; default = none }) req)
        (built-append C J t resp before h behind)
      ∙ call-first req _ _ (pending C J t resp h).built none
          (All-Refuses C J t resp req before refused)
          (Accepts-check_filters (h.builder build).filters req.req accepted)
      ∙ pipeline-answer C t resp h.hnd req req' m x wait result e k,
)
