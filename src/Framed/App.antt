-- ===== src/Framed/App.antt =====
-- src/framed_app.rs, which src/lib.rs does not compile at this commit: applications of upgraded
-- connections. The router of `actix_router` is a parameter, as in App.
pub mod Answer
pub mod Create
pub mod Loop
mod Tests
use actix_web.Prelude.{
  ℕ, String, Bool, true, false, Option, none, some, List, [], ◌∷◌, ◌++◌, map, get_elem?, ok,
}
use actix_web.Futures.{Poll, Fut, ready, not_ready, error, panicked, poll_fut, now}
use actix_web.Futures.Combinators.{Combinators, map_item, map_err}
use actix_web.Http.{HttpRequest, HttpTypes}
use actix_web.Helpers.{http_new_service}
use actix_web.Resource.{Sweep, swept, failed, panic, and_done}
use actix_web.App.{RouterTypes}
use actix_web.Framed.{FramedRequest, new as new_framed}

-- A request of `src/framed_app.rs`: `WebRequest`, with the state of the application, in a
-- `FramedRequest`.
pub record StateRequest (S F : Type 0) : Type 0 where
  pub state : S
  pub request : FramedRequest F (Unit {0})

-- `BoxedHttpService`, of a framed application.
abbrev pub Service : Type 0 → Type 0 → Type 0
Service S F = StateRequest S F → Fut (Unit {0}) (Unit {0})

-- `HttpServiceFactory`: `create`, by what `new_service()` of its factory returns.
pub record HttpServiceFactory (S F : Type 0) : Type 1 where
  pub path : String
  pub Error : Type 0
  pub InitError : Type 0
  pub create : S → Fut (StateRequest S F → Fut (Unit {0}) Error) InitError

module _ (S F : Type 0) where
  -- `FramedApp`, and `FramedAppFactory`, which has the same fields.
  pub record FramedApp : Type 0 where
    pub services : List (String × Fut (Service S F) (Unit {0}))
    pub state : S

  -- `CreateServiceItem`.
  pub data CreateServiceItem : Type 0 where
    future : Option String → Fut (Service S F) (Unit {0}) → CreateServiceItem
    service : String → Service S F → CreateServiceItem

  -- `CreateService`.
  pub record CreateService : Type 0 where
    pub fut : List CreateServiceItem
    pub state : S

  -- `FramedAppService`; its router is the list of what was registered in it.
  pub record FramedAppService : Type 0 where
    pub router : List (String × Service S F)
    pub state : S

-- `FramedApp::new`.
abbrev pub new_app : {F : Type 0} → FramedApp (Unit {0}) F
new_app = record { services = []; state = tt }

module _ {S F : Type 0} where
  -- `FramedApp::with`.
  abbrev pub with_state : S → FramedApp S F
  with_state state = record { services = []; state = state }

  -- `FramedApp::service`.
  abbrev pub add_factory : Combinators → FramedApp S F → HttpServiceFactory S F → FramedApp S F
  add_factory C a factory = record a {
    services = a.services ++ (factory.path, http_new_service C (factory.create a.state)) ∷ [];
  }

  -- `FramedApp::register_service`, which changes the application in place.
  abbrev pub register_service : Combinators → FramedApp S F → HttpServiceFactory S F → FramedApp S F
  register_service C a factory = record a {
    services = a.services ++ (factory.path, http_new_service C (factory.create a.state)) ∷ [];
  }

  -- `NewService::new_service` of `FramedAppFactory`, which `into_new_service` makes.
  abbrev pub create_services : FramedApp S F → CreateService S F
  create_services a = record { fut = map (λ s. future (some s.0) s.1) a.services; state = a.state }

  -- One item of the loop of `poll`, by what its future gave; `path.take().unwrap()` panics on a
  -- path that was taken.
  abbrev pub settle_framed :
      Option String
      → Poll (Service S F) (Unit {0}) × Fut (Service S F) (Unit {0})
      → Sweep × CreateServiceItem S F
  settle_framed (some path) (ready s, fut) = (swept true, service path s)
  settle_framed none (ready s, fut) = (panic, future none fut)
  settle_framed path (not_ready, fut) = (swept false, future path fut)
  settle_framed path (error e, fut) = (failed, future path fut)
  settle_framed path (panicked, fut) = (panic, future path fut)

  abbrev pub poll_framed_item : CreateServiceItem S F → Sweep × CreateServiceItem S F
  poll_framed_item (service path s) = (swept true, service path s)
  poll_framed_item (future path fut) = settle_framed path (poll_fut fut)

  abbrev pub join_framed :
      Sweep × CreateServiceItem S F
      → List (CreateServiceItem S F)
      → Sweep × List (CreateServiceItem S F)
      → Sweep × List (CreateServiceItem S F)
  join_framed (swept done, item) items (rest, items') = (and_done done rest, item ∷ items')
  join_framed (failed, item) items rest = (failed, item ∷ items)
  join_framed (panic, item) items rest = (panic, item ∷ items)

  unfoldable pub poll_framed_items :
      List (CreateServiceItem S F) → Sweep × List (CreateServiceItem S F)
  poll_framed_items [] = (swept true, [])
  poll_framed_items (item ∷ items) =
      join_framed (poll_framed_item item) items (poll_framed_items items)

  -- The fold over the items that fills the router; `none` is its `unreachable!()`.
  abbrev pub put_service :
      String × Service S F
      → Option (List (String × Service S F))
      → Option (List (String × Service S F))
  put_service s none = none
  put_service s (some ss) = some (s ∷ ss)

  unfoldable pub drain_framed : List (CreateServiceItem S F) → Option (List (String × Service S F))
  drain_framed [] = some []
  drain_framed (future path fut ∷ items) = none
  drain_framed (service path s ∷ items) = put_service (path, s) (drain_framed items)

  abbrev pub finish_framed :
      S
      → List (CreateServiceItem S F)
      → Option (List (String × Service S F))
      → Poll (FramedAppService S F) (Unit {0}) × CreateService S F
  finish_framed state items none = (panicked, record { fut = items; state = state })
  finish_framed state items (some router) =
      (ready (record { router = router; state = state }), record { fut = []; state = state })

  abbrev pub after_framed :
      S
      → Sweep × List (CreateServiceItem S F)
      → Poll (FramedAppService S F) (Unit {0}) × CreateService S F
  after_framed state (swept true, items) = finish_framed state items (drain_framed items)
  after_framed state (swept false, items) = (not_ready, record { fut = items; state = state })
  after_framed state (failed, items) = (error tt, record { fut = items; state = state })
  after_framed state (panic, items) = (panicked, record { fut = items; state = state })

  -- `Future::poll` of `CreateService`.
  unfoldable pub poll_framed :
      CreateService S F → Poll (FramedAppService S F) (Unit {0}) × CreateService S F
  poll_framed c = after_framed c.state (poll_framed_items c.fut)

  -- What the router found, or `SendResponse::send` of a response that nothing was found.
  abbrev pub call_framed_at :
      {Sent SendError : Type 0}
      → Combinators
      → Fut Sent SendError
      → List (String × Service S F)
      → Option ℕ
      → Service S F
  call_framed_at C sent router none req = map_err C (map_item C sent (λ s. tt)) (λ e. tt)
  call_framed_at C sent router (some i) req = elim (get_elem? router i) [
    | some (path, srv) ↦ srv req
    | none ↦ map_err C (map_item C sent (λ s. tt)) (λ e. tt)
  ]

module _ {S F Sent SendError : Type 0} (C : Combinators) (R : RouterTypes) (H : HttpTypes) where
  -- `Service::call` of `FramedAppService`; `send` is `SendResponse::send`.
  unfoldable pub call_framed :
      (F → H.Response → Fut Sent SendError)
      → FramedAppService S F
      → HttpRequest × F
      → Fut (Unit {0}) (Unit {0})
  call_framed send a (req, framed) =
      let (found, req') = R.recognize (map (λ s. R.new_def s.0) a.router) req in
      call_framed_at C (send framed H.not_found) a.router found
        (record { state = a.state; request = new_framed req' framed })
