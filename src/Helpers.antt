-- ===== src/Helpers.antt =====
-- src/helpers.rs: services and their factories behind a box, which forgets their errors. A service
-- is what its `call` returns for a request, a factory what its `new_service()` returns.
mod Tests
use actix_web.Prelude.{ℕ, Result, ok, err, ◌≡◌, refl, ap, ◌∙◌}
use actix_web.Futures.{Poll, Fut, ready, not_ready, error, panicked, now, after}
use actix_web.Futures.Combinators.{
  Combinators, and_then, map_err, err_mapped, if_ok, chain-after, delay-now,
}
use actix_web.Http.{HttpTypes}

-- `map_err(|_| ())`.
abbrev pub forget : {A E : Type 0} → Result A E → Result A (Unit {0})
forget (ok a) = ok a
forget (err e) = err tt

-- `poll_ready` of both wrappers.
abbrev pub poll_ready : {A E : Type 0} → Poll A E → Poll A (Unit {0})
poll_ready (ready a) = ready a
poll_ready not_ready = not_ready
poll_ready (error e) = error tt
poll_ready panicked = panicked

-- `not_found`.
abbrev pub not_found : {A : Type 0} (H : HttpTypes) → A → Fut H.Response (Unit {0})
not_found H req = now (ok H.not_found)

module _ (C : Combinators) {Req Res E : Type 0} where
  -- `Service::call` of `HttpServiceWrapper`.
  abbrev pub call_service : (Req → Fut Res E) → Req → Fut Res (Unit {0})
  call_service service req = map_err C (service req) (λ e. tt)

  -- `NewService::new_service` of `HttpNewService`.
  abbrev pub http_new_service :
      {I : Type 0} → Fut (Req → Fut Res E) I → Fut (Req → Fut Res (Unit {0})) (Unit {0})
  http_new_service factory =
      and_then C (map_err C factory (λ e. tt)) (λ service. now (ok (call_service service)))

  -- `Service::call` of `DefaultServiceWrapper`.
  abbrev pub call_default : (Req → Fut Res E) → Req → Fut Res (Unit {0})
  call_default service req = map_err C (service req) (λ e. tt)

  -- `NewService::new_service` of `DefaultNewService`.
  abbrev pub default_new_service :
      {I : Type 0} → Fut (Req → Fut Res E) I → Fut (Req → Fut Res (Unit {0})) (Unit {0})
  default_new_service factory =
      and_then C (map_err C factory (λ e. tt)) (λ service. now (ok (call_default service)))

module _ (C : Combinators) {A E : Type 0} where
  pub map_err-after :
      (n : ℕ) (r : Result A E) → map_err C (after n r) (λ e. tt) ≡ after n (forget r)
  map_err-after n (ok a) = chain-after C n (ok a) (err_mapped (λ e. tt)) ∙ delay-now n (ok a)
  map_err-after n (err e) = chain-after C n (err e) (err_mapped (λ e. tt)) ∙ delay-now n (err tt)

pub http_new_service_created :
    (C : Combinators) {Req Res E I : Type 0} (m : ℕ) (service : Req → Fut Res E)
    → http_new_service C {I = I} (after m (ok service)) ≡ after m (ok (call_service C service))
http_new_service_created C m service =
    ap (λ f. and_then C f (λ s. now (ok (call_service C s)))) (map_err-after C m (ok service))
    ∙ chain-after C m (ok service) (if_ok (λ s. now (ok (call_service C s))))
    ∙ delay-now m (ok (call_service C service))

-- What a boxed service answers.
pub call_service-after :
    (C : Combinators) {Req Res E : Type 0} (service : Req → Fut Res E) (req : Req) (k : ℕ)
    (r : Result Res E)
    → service req ≡ after k r
    → call_service C service req ≡ after k (forget r)
call_service-after C service req k r h = ap (λ f. map_err C f (λ e. tt)) h ∙ map_err-after C k r

-- The boxed service of a factory comes at the poll at which the factory gives its service, and
-- answers each request at the poll at which that service does, with its response; where the service
-- fails, so does the boxed one.
pub http_new_service-after :
    (C : Combinators) {Req Res E I : Type 0} (m : ℕ) (service : Req → Fut Res E) (wait : Req → ℕ)
    (result : Req → Result Res E)
    → ((req : Req) → service req ≡ after (wait req) (result req))
    → (boxed : Req → Fut Res (Unit {0})) × (http_new_service C {I = I} (after m (ok service))
        ≡ after m (ok boxed))
      × ((req : Req) → boxed req ≡ after (wait req) (forget (result req)))
http_new_service-after C m service wait result h = (
  call_service C service,
  http_new_service_created C m service,
  λ req. call_service-after C service req (wait req) (result req) (h req),
)
