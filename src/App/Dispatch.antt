-- ===== src/App/Dispatch.antt =====
-- Which service of an application (src/app.rs) answers a request.
use mathlib.Core.Path.{subst}
use actix_web.Prelude.{
  ℕ, zero, suc, Option, none, some, List, [], ◌∷◌, ◌≡◌, sym, ◌∙◌, ap, refl, ok, map, get_elem?, All,
}
use mathlib.Core.Option as Option
use actix_web.Futures.{Poll, Fut, ready, not_ready, error, panicked, after}
use actix_web.Http.{HttpRequest, ServiceRequest, HttpTypes}
use actix_web.Route.{Service, Route}
use actix_web.Resource.{ResourceService, create, call as call_resource}
use actix_web.Resource.Create.{drive as drive_resource, drive-create_default, AllWithin}
use actix_web.Resource.Items.{Pending, routes_of, built}
use actix_web.Resource.Dispatch.{Refuses, call-refused}
use actix_web.App.{
  RouterTypes, CreateAppServiceItem, future, HttpServiceFut, creating, Cells, resource_factory, new,
  into_new_service, create_app, new_service, call, call_found, poll_service,
}
use actix_web.App.Create.{
  drive, drive-ready, AllDoneBy, DoneBy, ReadyBy, ReadyWithin, drive_resource-ReadyWithin,
}
use actix_web.App.Defaults.{Step, run, registered, defaults_of, last_default, into_new_service-run}

module _ {H : HttpTypes} {P : Type 0} where
  -- A future gives one service.
  ReadyBy-unique :
      (n : ℕ) (s t : Service H P) (p : Poll (Service H P) (Unit {0}) × HttpServiceFut H P)
      → ReadyBy n s p
      → ReadyBy n t p
      → s ≡ t
  ReadyBy-unique n s t (ready u, fut) h k = sym h ∙ k
  ReadyBy-unique zero s t (not_ready, fut) h k = absurd h
  ReadyBy-unique (suc n) s t (not_ready, fut) h k = ReadyBy-unique n s t (poll_service fut) h k
  ReadyBy-unique n s t (error e, fut) h k = absurd h
  ReadyBy-unique n s t (panicked, fut) h k = absurd h

module _ {R : RouterTypes} {H : HttpTypes} {P : Type 0} where
  -- What stands at one place of both lists.
  abbrev Both :
      ℕ → Option (R.ResourceDef × Service H P) → Option (CreateAppServiceItem R H P) → Type 0
  Both n none none = Unit
  Both n none (some item) = ⊥
  Both n (some e) none = ⊥
  Both n (some e) (some item) = DoneBy n e item

  AllDoneBy-Both :
      (n i : ℕ) (es : List (R.ResourceDef × Service H P))
      (items : List (CreateAppServiceItem R H P))
      → AllDoneBy n es items
      → Both n (get_elem? es i) (get_elem? items i)
  AllDoneBy-Both n i [] [] h = tt
  AllDoneBy-Both n i [] (x ∷ items) h = absurd h
  AllDoneBy-Both n i (s ∷ es) [] h = absurd h
  AllDoneBy-Both n zero (s ∷ es) (x ∷ items) (h, k) = h
  AllDoneBy-Both n (suc i) (s ∷ es) (x ∷ items) (h, k) = AllDoneBy-Both n i es items k

module _ (R : RouterTypes) {H : HttpTypes} {P : Type 0} where
  Both-serves :
      (n i : ℕ) (es : List (R.ResourceDef × Service H P)) (rdef : R.ResourceDef)
      (fut : HttpServiceFut H P) (s : Service H P) (req : ServiceRequest P)
      → Both {R = R} n (get_elem? es i) (some (future rdef fut))
      → ReadyWithin n s fut
      → call_found es (some i) req ≡ s req
  unfolding ReadyWithin
  Both-serves n i [] rdef fut s req h k = absurd h
  Both-serves n zero ((rdef', t) ∷ es) rdef fut s req h k =
      ap (λ u. u req) (ReadyBy-unique n t s (poll_service fut) h.1 k)
  Both-serves n (suc i) (e ∷ es) rdef fut s req h k = Both-serves n i es rdef fut s req h k

get_elem?-map :
    {A B : Type 0} (f : A → B) (xs : List A) (i : ℕ)
    → get_elem? (map f xs) i ≡ Option.map f (get_elem? xs i)
get_elem?-map f [] i = refl
get_elem?-map f (x ∷ xs) zero = refl
get_elem?-map f (x ∷ xs) (suc i) = get_elem?-map f xs i

-- The services of a started application.
abbrev pub started :
    {R : RouterTypes} {H : HttpTypes} {P : Type 0}
    → List (Step R H P)
    → List (CreateAppServiceItem R H P)
started steps = create_app (into_new_service (run new steps))

module _ {H : HttpTypes} {P : Type 0} where
  new_service_cell :
      (cells : Cells H P) (routes : List (Route H P)) (cell : ℕ)
      (default : Option (Fut (Service H P) (Unit {0})))
      → get_elem? cells cell ≡ some default
      → new_service cells (resource_factory routes cell)
        ≡ creating (create (record { routes = routes; default = default }))
  unfolding new_service
  new_service_cell cells routes cell default h = rw (new_service, h) refl

module _ {R : RouterTypes} {H : HttpTypes} {P : Type 0} where
  started_item :
      (steps : List (Step R H P)) (i cell : ℕ) (rdef : R.ResourceDef) (routes : List (Route H P))
      (default : Option (Fut (Service H P) (Unit {0})))
      → get_elem? (registered zero steps) i ≡ some (rdef, resource_factory routes cell)
      → get_elem? (defaults_of (last_default none steps) steps) cell ≡ some default
      → get_elem? (started steps) i
        ≡ some (future rdef (creating (create (record { routes = routes; default = default }))))
  unfolding create_app
  started_item steps i cell rdef routes default h k =
      ap (λ a. get_elem? (create_app a) i) (into_new_service-run steps)
      ∙ get_elem?-map _ (registered zero steps) i
      ∙ ap (Option.map _) h
      ∙ ap (λ fut. some (future rdef fut)) (new_service_cell _ routes cell default k)

-- Where the services of a started application are each created within n + 1 polls, it is created
-- by then, and a request that its router hands to a resource is answered by the service of this
-- resource, which is created of its routes and of its default: its own, or the application's.
pub call-resource :
    {R : RouterTypes} {H : HttpTypes} {P : Type 0} (n i cell : ℕ) (steps : List (Step R H P))
    (es : List (R.ResourceDef × Service H P)) (rdef : R.ResourceDef) (routes : List (Route H P))
    (default : Option (Fut (Service H P) (Unit {0}))) (rs : ResourceService H P)
    (req : ServiceRequest P) (found_req : HttpRequest)
    → AllDoneBy {R = R} n es (started steps)
    → get_elem? (registered zero steps) i ≡ some (rdef, resource_factory routes cell)
    → get_elem? (defaults_of (last_default none steps) steps) cell ≡ some default
    → drive_resource (suc n) (create (record { routes = routes; default = default })) ≡ ready rs
    → R.recognize (map (λ e. e.0) es) req.req ≡ (some i, found_req)
    → (drive (suc n) (started steps) ≡ ready (record { router = es }))
      × (call {R = R} (record { router = es }) req
          ≡ call_resource rs (record req { req = found_req }))
unfolding call
call-resource {R} n i cell steps es rdef routes default rs req found_req h place own created found =
    let fut : HttpServiceFut _ _ =
      creating (create (record { routes = routes; default = default })) in
    let both : Both {R = R} n (get_elem? es i) (some (future rdef fut)) =
      subst (Both n (get_elem? es i)) (started_item steps i cell rdef routes default place own)
        (AllDoneBy-Both n i es (started steps) h) in
    (
      drive-ready n es (started steps) h,
      ap (λ r. call_found es r.0 (record req { req = r.1 })) found
          ∙ Both-serves R n i es rdef fut (call_resource rs) (record req { req = found_req }) both
              (drive_resource-ReadyWithin n _ rs created),
    )

-- In a started application whose services are each created within n + 1 polls, a request whose
-- resource has a default, its own or the application's, that is created at poll n + 1, its routes no
-- later, is answered by that default when every route of the resource refuses it.
pub call-default :
    {R : RouterTypes} {H : HttpTypes} {P : Type 0} (n i cell : ℕ) (steps : List (Step R H P))
    (es : List (R.ResourceDef × Service H P)) (rdef : R.ResourceDef) (ws : List (Pending H P))
    (d : Service H P) (req : ServiceRequest P) (found_req : HttpRequest)
    → AllDoneBy {R = R} n es (started steps)
    → get_elem? (registered zero steps) i ≡ some (rdef, resource_factory (routes_of ws) cell)
    → get_elem? (defaults_of (last_default none steps) steps) cell ≡ some (some (after n (ok d)))
    → AllWithin n ws
    → R.recognize (map (λ e. e.0) es) req.req ≡ (some i, found_req)
    → All (Refuses (record req { req = found_req })) (built ws)
    → call {R = R} (record { router = es }) req ≡ d (record req { req = found_req })
call-default n i cell steps es rdef ws d req found_req h place own quick found refused =
    (call-resource n i cell steps es rdef (routes_of ws) (some (after n (ok d)))
      (record { routes = built ws; default = some d }) req found_req h place own
      (drive-create_default n ws d quick) found).1
    ∙ call-refused (record { routes = built ws; default = some d }) (record req { req = found_req })
        refused
