-- ===== src/Framed/App/Answer.antt =====
-- What a framed application (src/framed_app.rs) does with a connection, from the factories that were
-- registered to the service that is called.
use actix_web.Prelude.{
  ℕ, zero, suc, ◌≤◌, String, Option, none, some, List, [], ◌∷◌, ◌++◌, map, get_elem?, ◌≡◌, refl,
  sym, ap, ◌∙◌, Result, ok, err, All, append_assoc, append_nil,
}
use mathlib.Core.Option as Option
use actix_web.Futures.{Fut, ready, after}
use actix_web.Futures.Drive.{drive}
use actix_web.Futures.Combinators.{Combinators, map_item, map_err, mapped, chain-after, delay-now}
use actix_web.Http.{HttpRequest, HttpTypes}
use actix_web.Helpers.{
  call_service, forget, http_new_service, http_new_service_created, call_service-after,
  map_err-after,
}
use actix_web.App.{RouterTypes}
use actix_web.Framed.{new as new_framed}
use actix_web.Framed.App.{
  Service, StateRequest, HttpServiceFactory, FramedApp, FramedAppService, with_state, add_factory,
  create_services, poll_framed, call_framed, call_framed_at,
}
use actix_web.Framed.App.Create.{Planned, planned, drive-planned}

-- A factory, by the polls that its creation takes and by its service for a state.
pub record Plan (S F E I : Type 0) : Type 0 where
  pub path : String
  pub wait : ℕ
  pub service : S → StateRequest S F → Fut (Unit {0}) E

abbrev serving : {S F : Type 0} → S → List (String × Fut (Service S F) (Unit {0})) → FramedApp S F
serving state services = record { services = services; state = state }

module _ {S F E I : Type 0} where
  abbrev pub factory_of : Plan S F E I → HttpServiceFactory S F
  factory_of p = record {
    path = p.path;
    Error = E;
    InitError = I;
    create = λ state. after p.wait (ok (p.service state));
  }

  -- Calls of `service` or `register_service`, one after the other.
  abbrev pub register : Combinators → FramedApp S F → List (Plan S F E I) → FramedApp S F
  register C a [] = a
  register C a (p ∷ plans) = register C (add_factory C a (factory_of p)) plans

  abbrev boxed : Combinators → S → List (Plan S F E I) → Planned S F
  boxed C state [] = []
  boxed C state (p ∷ plans) =
      (p.path, p.wait, call_service C (p.service state)) ∷ boxed C state plans

  -- The application that is created of these factories.
  abbrev application : Combinators → S → List (Plan S F E I) → FramedAppService S F
  application C state plans = record {
    router = map (λ e. (e.0, e.2)) (boxed C state plans);
    state = state;
  }

  register-boxed :
      (C : Combinators) (a : FramedApp S F) (plans : List (Plan S F E I))
      → register C a plans
        ≡ serving a.state (a.services ++ (planned a.state (boxed C a.state plans)).services)
  register-boxed C a [] = ap (serving a.state) (sym (append_nil a.services))
  register-boxed C a (p ∷ plans) =
      register-boxed C (add_factory C a (factory_of p)) plans
      ∙ ap (serving a.state) (append_assoc a.services (added.0 ∷ []) added.1)
      ∙ ap (λ f. serving a.state (a.services ++ (p.path, f) ∷ added.1))
          (http_new_service_created C p.wait (p.service a.state))
    where
      added : (String × Fut (Service S F) (Unit {0})) × List (String × Fut (Service S F) (Unit {0}))
      added = (
        (p.path, http_new_service C ((factory_of p).create a.state)),
        (planned a.state (boxed C a.state plans)).services,
      )

  All-boxed :
      (C : Combinators) (state : S) (n : ℕ) (plans : List (Plan S F E I))
      → All (λ p. p.wait ≤ n) plans
      → All (λ e. e.1 ≤ n) (boxed C state plans)
  All-boxed C state n [] h = tt
  All-boxed C state n (p ∷ plans) (h, k) = (h, All-boxed C state n plans k)

  created :
      (C : Combinators) (state : S) (n : ℕ) (plans : List (Plan S F E I))
      → All (λ p. p.wait ≤ n) plans
      → drive poll_framed (suc n) (create_services (register C (with_state state) plans))
        ≡ ready (application C state plans)
  created C state n plans h =
      ap (λ a. drive poll_framed (suc n) (create_services a))
        (register-boxed C (with_state state) plans)
      ∙ drive-planned n state (boxed C state plans) (All-boxed C state n plans h)

  get-boxed :
      (C : Combinators) (state : S) (plans : List (Plan S F E I)) (i : ℕ)
      → get_elem? (application C state plans).router i
        ≡ Option.map (λ p. (p.path, call_service C (p.service state))) (get_elem? plans i)
  get-boxed C state [] i = refl
  get-boxed C state (q ∷ plans) zero = refl
  get-boxed C state (q ∷ plans) (suc i) = get-boxed C state plans i

  patterns :
      (C : Combinators) (R : RouterTypes) (state : S) (plans : List (Plan S F E I))
      → map (λ s. R.new_def s.0) (application C state plans).router
        ≡ map (λ p. R.new_def p.path) plans
  patterns C R state [] = refl
  patterns C R state (p ∷ plans) = ap (λ ds. R.new_def p.path ∷ ds) (patterns C R state plans)

-- What becomes of the sending of a response.
abbrev pub sent : {A E : Type 0} → Result A E → Result (Unit {0}) (Unit {0})
sent (ok a) = ok tt
sent (err e) = err tt

sent-after :
    (C : Combinators) {A E : Type 0} (k : ℕ) (r : Result A E)
    → map_err C (map_item C (after k r) (λ s. tt)) (λ e. tt) ≡ after k (sent r)
sent-after C k (ok a) =
    ap (λ f. map_err C f (λ e. tt))
      (chain-after C k (ok a) (mapped (λ s. tt)) ∙ delay-now k (ok tt))
    ∙ map_err-after C k (ok tt)
sent-after C k (err e) =
    ap (λ f. map_err C f (λ e. tt))
      (chain-after C k (err e) (mapped (λ s. tt)) ∙ delay-now k (err e))
    ∙ map_err-after C k (err e)

module _ {S F E I Sent SendError : Type 0} (C : Combinators) (R : RouterTypes) (H : HttpTypes) where
  call_routed :
      (send : F → H.Response → Fut Sent SendError) (state : S) (plans : List (Plan S F E I))
      (req req' : HttpRequest) (framed : F) (found : Option ℕ)
      → R.recognize (map (λ p. R.new_def p.path) plans) req ≡ (found, req')
      → call_framed C R H send (application C state plans) (req, framed)
        ≡ call_framed_at C
            (send framed H.not_found)
            (application C state plans).router
            found
            (record { state = state; request = new_framed req' framed })
  unfolding call_framed
  call_routed send state plans req req' framed found h =
      ap
        (λ q.
          call_framed_at C (send framed H.not_found) (application C state plans).router q.0
            (record { state = state; request = new_framed q.1 framed }))
        (ap (λ ds. R.recognize ds req) (patterns C R state plans) ∙ h)

-- A framed application of factories that each take at most n polls is created within n + 1 polls. A
-- request whose path the router finds among theirs is then answered by the service that this
-- factory made for the state of the application, at the poll at which that service is done; of its
-- error only the fact is left.
pub call_framed-registered :
    {S F E I Sent SendError : Type 0} (C : Combinators) (R : RouterTypes) (H : HttpTypes)
    (send : F → H.Response → Fut Sent SendError) (state : S) (n : ℕ) (plans : List (Plan S F E I))
    (req req' : HttpRequest) (framed : F) (i : ℕ) (p : Plan S F E I) (k : ℕ)
    (r : Result (Unit {0}) E)
    → All (λ p. p.wait ≤ n) plans
    → R.recognize (map (λ p. R.new_def p.path) plans) req ≡ (some i, req')
    → get_elem? plans i ≡ some p
    → p.service state (record { state = state; request = new_framed req' framed }) ≡ after k r
    → (a : FramedAppService S F) × (drive poll_framed
          (suc n)
          (create_services (register C (with_state state) plans))
        ≡ ready a)
      × (call_framed C R H send a (req, framed) ≡ after k (forget r))
call_framed-registered C R H send state n plans req req' framed i p k r within found at answers = (
  application C state plans,
  created C state n plans within,
  call_routed C R H send state plans req req' framed (some i) found
      ∙ ap
          (λ o. elim o [
            | some (path, srv) ↦ srv (record { state = state; request = new_framed req' framed })
            | none ↦ map_err C (map_item C (send framed H.not_found) (λ s. tt)) (λ e. tt)
          ])
          (get-boxed C state plans i
            ∙ ap (Option.map (λ p. (p.path, call_service C (p.service state)))) at)
      ∙ call_service-after C (p.service state) _ k r answers,
)

-- Where the router finds none of the paths, the response that nothing was found is sent on the
-- connection, and the answer is done when it was sent, or fails when that fails.
pub call_framed-unknown :
    {S F E I Sent SendError : Type 0} (C : Combinators) (R : RouterTypes) (H : HttpTypes)
    (send : F → H.Response → Fut Sent SendError) (state : S) (n : ℕ) (plans : List (Plan S F E I))
    (req req' : HttpRequest) (framed : F) (k : ℕ) (r : Result Sent SendError)
    → All (λ p. p.wait ≤ n) plans
    → R.recognize (map (λ p. R.new_def p.path) plans) req ≡ (none, req')
    → send framed H.not_found ≡ after k r
    → (a : FramedAppService S F) × (drive poll_framed
          (suc n)
          (create_services (register C (with_state state) plans))
        ≡ ready a)
      × (call_framed C R H send a (req, framed) ≡ after k (sent r))
call_framed-unknown C R H send state n plans req req' framed k r within found sends = (
  application C state plans,
  created C state n plans within,
  call_routed C R H send state plans req req' framed none found
      ∙ ap (λ f. map_err C (map_item C f (λ s. tt)) (λ e. tt)) sends
      ∙ sent-after C k r,
)
