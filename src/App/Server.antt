-- ===== src/App/Server.antt =====
-- A whole application (src/app.rs): the states, the cell that its entry point is created from, and
-- the services, from `into_new_service` to the answer. What `actix_service` joins is a parameter.
use actix_web.Prelude.{
  ℕ, zero, suc, ◌≤◌, String, true, Option, none, some, List, [], ◌∷◌, ◌++◌, ◌≡◌, ◌≢◌, refl, sym, ap,
  ◌∙◌, ok, All, arith,
}
use actix_web.Prelude.Text.{Text}
use actix_web.Futures.{Poll, Fut, ready, not_ready, error, panicked, now, spent, after}
use actix_web.Futures.Combinators.{Combinators, called, called-after, and_then, if_ok}
use actix_web.Futures.Collect.{collect, collect-Gives, ready-Gives}
use actix_web.Futures.Drive as Drive
use actix_web.Http.{HttpTypes, ServiceRequest, ServiceResponse}
use actix_web.Route.{Service}
use actix_web.Handler.Factory.{Joins}
use actix_web.State.{ExtensionTypes, StateFactory, new_service, from_request, AppStateFactoryResult}
use actix_web.State as State
use actix_web.State.Start as Start
use actix_web.State.Registered.{Call, configure, stored, Served, serve_state, configure-last}
use actix_web.App.{
  RouterTypes, App, AppFactory, AppService, CreateAppServiceItem, into_new_service, create_app, new,
  poll, call,
}
use actix_web.App.Create as Create
use actix_web.App.Create.{AllDoneBy, drive-ready}
use actix_web.App.Defaults.{Step, run, layered, run-endpoint}
use actix_web.App.Dispatch.{started}

module _ {R : RouterTypes} {H : HttpTypes} {P : Type 0} where
  -- `factory_ref`, the cell that an application shares with its `AppEntry`, as `App::create` makes
  -- it and as `into_new_service` leaves it.
  abbrev pub new_factory_ref : Option (AppFactory R H P)
  new_factory_ref = none

  abbrev pub set_factory : App R H P → Option (AppFactory R H P)
  set_factory a = some (into_new_service a)

  -- `NewService::new_service` of `AppEntry`; `none` is the panic of `unwrap()`.
  abbrev pub entry_new_service :
      Option (AppFactory R H P) → Option (List (CreateAppServiceItem R H P))
  entry_new_service none = none
  entry_new_service (some factory) = some (create_app factory)

  -- The future of it, of at most `fuel` polls.
  abbrev pub entry_future :
      ℕ → Option (List (CreateAppServiceItem R H P)) → Fut (AppService R H P) (Unit {0})
  entry_future fuel none = spent
  entry_future fuel (some items) = collect poll fuel items

  -- The future of the endpoint's service: that of the entry point, in what the middleware makes of it.
  abbrev pub endpoint_future : ℕ → App R H P → Fut (Service H P) (Unit {0})
  endpoint_future fuel a =
      a.endpoint (called (call {R = R}) (entry_future fuel (entry_new_service (set_factory a))))

module _ (X : ExtensionTypes) {R : RouterTypes} {H : HttpTypes} {P : Type 0} where
  -- `AppStateFactory { .. }.and_then(self.endpoint)`, the future of its services.
  abbrev pub server_future :
      Joins
      → ℕ
      → List (StateFactory X)
      → X.Extensions
      → App R H P
      → Fut (X.Extensions × Service H P) (Unit {0})
  server_future J fuel states e a =
      J.both _ _ _ (collect (State.poll X) fuel (new_service states e true))
        (endpoint_future fuel a)

module _ (X : ExtensionTypes) {H : HttpTypes} {P : Type 0} where
  -- The call of these two services, one behind the other.
  abbrev pub call_server :
      Combinators
      → (String → Text)
      → X.Extensions × Service H P
      → ServiceRequest P
      → Fut (ServiceResponse H) (Unit {0})
  call_server C new_path (e, endpoint) req =
      and_then C (serve_state {X = X} new_path e req) (λ s. endpoint s.req)

module _ {R : RouterTypes} {H : HttpTypes} {P : Type 0} where
  drive-react :
      (n : ℕ) (p : Poll (AppService R H P) (Unit {0}) × List (CreateAppServiceItem R H P))
      → ((items : List (CreateAppServiceItem R H P))
          → Create.drive n items ≡ Drive.drive poll n items)
      → Create.react p (Create.drive n) ≡ Drive.react p (Drive.drive poll n)
  drive-react n (ready a, items) h = refl
  drive-react n (not_ready, items) h = h items
  drive-react n (error e, items) h = refl
  drive-react n (panicked, items) h = refl

  drive_app :
      (n : ℕ) (items : List (CreateAppServiceItem R H P))
      → Create.drive n items ≡ Drive.drive poll n items
  unfolding Create.drive Drive.drive
  drive_app zero items = refl
  drive_app (suc n) items = drive-react n (poll items) (drive_app n)

  -- The services come within the polls that are enough for the slowest.
  entry_future_ready :
      (n : ℕ) (a : App R H P) (es : List (R.ResourceDef × Service H P))
      → AllDoneBy n es (create_app (into_new_service a))
      → (k : ℕ) × (k ≤ n)
        × (entry_future (suc n) (entry_new_service (set_factory a))
            ≡ after k (ok (record { router = es })))
  entry_future_ready n a es done =
      collect-Gives poll n n (ok (record { router = es })) (create_app (into_new_service a))
        (omega arith)
        (ready-Gives (record { router = es }) _
          (sym (drive_app (suc n) (create_app (into_new_service a))) ∙ drive-ready n es _ done))

module _ (X : ExtensionTypes) where
  state_react :
      (p : Poll X.Extensions (Unit {0}) × AppStateFactoryResult X)
      → Start.react X p (Start.drive X 0) ≡ Drive.react p (Drive.drive (State.poll X) 0)
  unfolding Start.drive Drive.drive
  state_react (ready e, c) = refl
  state_react (not_ready, c) = refl
  state_react (error x, c) = refl
  state_react (panicked, c) = refl

  state_drive : (c : AppStateFactoryResult X) → Start.drive X 1 c ≡ Drive.drive (State.poll X) 1 c
  unfolding Start.drive Drive.drive
  state_drive c = state_react (State.poll X c)

  gathered_now :
      (f : Fut X.Extensions (Unit {0})) (e : X.Extensions)
      → (k : ℕ) × (k ≤ 0) × (f ≡ after k (ok e))
      → f ≡ now (ok e)
  gathered_now f e (zero, l, h) = h
  gathered_now f e (suc k, l, h) = absurd (omega arith)

  -- States that are there at once.
  states_now :
      (n : ℕ) (c : AppStateFactoryResult X) (e : X.Extensions)
      → Start.drive X 1 c ≡ ready e
      → collect (State.poll X) (suc n) c ≡ now (ok e)
  states_now n c e h = gathered_now _ e (
      collect-Gives (State.poll X) 0 n (ok e) c (omega arith)
        (ready-Gives e _ (sym (state_drive c) ∙ h)))

-- Where the services of an application are each created within n + 1 polls, its entry point gives the
-- service of the application after k polls, k at most n; where all the middleware that was registered,
-- each around what was registered before it, makes of this, whatever k is, a service `s` after
-- `wait k` polls, the server is created after `wait k` polls, its states being there at the first. A
-- request then carries what the last call of `state` or `state_factory` for a type has stored, found
-- by that type, and is answered as `s` answers it.
pub server_future-serves :
    (X : ExtensionTypes) (J : Joins) (C : Combinators) {R : RouterTypes} {H : HttpTypes}
    {P : Type 0} (before : List (Call X)) (c : Call X) (behind : List (Call X)) (e : X.Extensions)
    (new_path : String → Text) (n : ℕ) (steps : List (Step R H P))
    (es : List (R.ResourceDef × Service H P)) (req : ServiceRequest P) (wait : ℕ → ℕ)
    (s : Service H P)
    → All (λ d. X.type_of (stored d) ≢ X.type_of (stored c)) behind
    → AllDoneBy {R = R} n es (started steps)
    → ((k : ℕ)
        → k ≤ n
        → layered steps (after k (ok (call {R = R} (record { router = es }))))
          ≡ after (wait k) (ok s))
    → (k : ℕ) × (e' : X.Extensions) × (r : Served X P) × (k ≤ n)
      × (server_future X J (suc n) (configure [] (before ++ c ∷ behind)) e (run new steps)
          ≡ after (wait k) (ok (e', s)))
      × (serve_state new_path e' req ≡ now (ok r))
      × (from_request X r.extensions (X.type_of (stored c)) ≡ ok (stored c))
      × (call_server X C new_path (e', s) req ≡ s r.req)
server_future-serves X J C {R = R} before c behind e new_path n steps es req wait s others done
      layers =
    let (e', r, started_with, served, payload, found) =
      configure-last X before c behind e new_path req others in
    let (k, within, created) = entry_future_ready n (run new steps) es done in
    (
      k,
      e',
      r,
      within,
      ap (λ f. J.both _ _ _ f (endpoint_future (suc n) (run new steps)))
            (states_now X n _ e' started_with)
          ∙ ap (J.both _ _ _ (now (ok e'))) (
              ap (λ f. (run new steps).endpoint (called (call {R = R}) f)) created
              ∙ ap (run new steps).endpoint (called-after (call {R = R}) k _)
              ∙ run-endpoint steps new _
              ∙ layers k within)
          ∙ J.both-after _ _ _ 0 (wait k) e' s,
      served,
      found,
      ap (λ f. and_then C f (λ r. s r.req)) served
          ∙ C.chain-now _ _ _ _ (ok r) (if_ok (λ r. s r.req)),
    )
