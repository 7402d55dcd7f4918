-- ===== src/Handler/Answer.antt =====
-- What the routes that `RouteBuilder::to` and `to_async` of src/route.rs make answer.
use actix_web.Prelude.{ℕ, zero, suc, ◌+◌, some, Result, ok, err, ◌≡◌, refl, ap, ◌∙◌}
use actix_web.Futures.{Fut, later, after}
use actix_web.Futures.Combinators.{
  Combinators, and_then, expect_ok, chain-after, delay, delay-after, delay-now, if_ok, or_panic,
}
use actix_web.Http.{
  HttpRequest, HttpTypes, ServiceRequest, into_request, ServiceResponse, new_response,
  error_response,
}
use actix_web.Route.{wrap}
use actix_web.Handler.{Responder, FromRequest}
use actix_web.Handler.Pipeline.{handling, extracting, pipeline, pipeline_async}

module _ (H : HttpTypes) where
  -- The response of what a handler's future gives.
  abbrev pub response_of :
      {A E : Type 0} → (A → H.Response) → (E → H.Error) → Result A E → H.Response
  response_of into_response into (ok a) = into_response a
  response_of into_response into (err e) = H.from_error (into e)

  handling-after :
      {A E : Type 0} (into_response : A → H.Response) (into : E → H.Error) (n : ℕ) (r : Result A E)
      (req : HttpRequest)
      → handling H into_response into (after n r) (some req)
        ≡ after n (ok (new_response H req (response_of into_response into r)))
  handling-after into_response into zero (ok a) req = refl
  handling-after into_response into zero (err e) req = refl
  handling-after into_response into (suc n) r req =
      ap later (handling-after into_response into n r req)

  abbrev extraction :
      {P T E : Type 0}
      → (E → H.Error)
      → ServiceRequest P
      → Result T E
      → Result (T × HttpRequest) (H.Error × ServiceRequest P)
  extraction into req (ok item) = ok (item, into_request req)
  extraction into req (err e) = err (into e, req)

  extracting-after :
      {P T E : Type 0} (into : E → H.Error) (n : ℕ) (r : Result T E) (req : ServiceRequest P)
      → extracting H into (after n r) (some req) ≡ after n (extraction into req r)
  extracting-after into zero (ok item) req = refl
  extracting-after into zero (err e) req = refl
  extracting-after into (suc n) r req = ap later (extracting-after into n r req)

module _ {H : HttpTypes} {P : Type 0} where
  wrap-delay :
      (n : ℕ) (f : Fut (ServiceResponse H) (H.Error × ServiceRequest P))
      → wrap (delay n f) ≡ delay n (wrap f)
  unfolding wrap
  wrap-delay zero f = refl
  wrap-delay (suc n) f = ap later (wrap-delay n f)

wrap-after :
    {H : HttpTypes} (P : Type 0) (n : ℕ) (res : ServiceResponse H)
    → wrap {H = H} {P = P} (after n (ok res)) ≡ after n (ok res)
unfolding wrap
wrap-after P zero res = refl
wrap-after P (suc n) res = ap later (wrap-after P n res)

module _ (H : HttpTypes) {P A E : Type 0} where
  handled :
      (C : Combinators) (into_response : A → H.Response) (into : E → H.Error) (fut : Fut A E)
      (n : ℕ) (r : Result A E) (req : HttpRequest)
      → fut ≡ after n r
      → expect_ok C {F = H.Error × ServiceRequest P} (handling H into_response into fut (some req))
        ≡ after n (ok (new_response H req (response_of H into_response into r)))
  handled C into_response into fut n r req e =
      ap (λ f. expect_ok C (handling H into_response into f (some req))) e
      ∙ ap (expect_ok C) (handling-after H into_response into n r req)
      ∙ chain-after C n (ok (new_response H req (response_of H into_response into r))) or_panic
      ∙ delay-now n (ok (new_response H req (response_of H into_response into r)))

module _ (H : HttpTypes) {P T A E : Type 0} where
  -- The answer to a request whose extraction took `m` polls and gave `x`, if the handler's future
  -- of an item takes `wait item` polls and gives `result item`.
  abbrev pub answer_of :
      {X : Type 0}
      → (X → H.Error)
      → (A → H.Response)
      → (E → H.Error)
      → ServiceRequest P
      → ℕ
      → (T → ℕ)
      → (T → Result A E)
      → Result T X
      → Fut (ServiceResponse H) (Unit {0})
  answer_of into_x into_response into req m wait result (err e) =
      after m (ok (error_response H req (into_x e)))
  answer_of into_x into_response into req m wait result (ok item) =
      after (m + wait item)
        (ok (new_response H req.req (response_of H into_response into (result item))))

  answered :
      {X : Type 0} (C : Combinators) (into_x : X → H.Error) (into_response : A → H.Response)
      (into : E → H.Error) (h : T → HttpRequest → Fut A E) (req : ServiceRequest P) (m : ℕ)
      (wait : T → ℕ) (result : T → Result A E) (x : Result T X)
      → ((item : T) → h item req.req ≡ after (wait item) (result item))
      → wrap (
          and_then C
            (extracting H into_x (after m x) (some req))
            (λ arg. expect_ok C (handling H into_response into (h arg.0 arg.1) (some arg.1))))
        ≡ answer_of into_x into_response into req m wait result x
  unfolding wrap
  answered {X} C into_x into_response into h req m wait result x k =
      ap (λ f. wrap (and_then C f after_extraction)) (extracting-after H into_x m x req)
      ∙ ap wrap (chain-after C m (extraction H into_x req x) (if_ok after_extraction))
      ∙ wrap-delay m (if_ok after_extraction (extraction H into_x req x))
      ∙ last x
    where
      after_extraction : T × HttpRequest → Fut (ServiceResponse H) (H.Error × ServiceRequest P)
      after_extraction arg =
          expect_ok C (handling H into_response into (h arg.0 arg.1) (some arg.1))

      last :
          (x : Result T X)
          → delay m (wrap (if_ok after_extraction (extraction H into_x req x)))
            ≡ answer_of into_x into_response into req m wait result x
      last (err e) = delay-now m (ok (error_response H req (into_x e)))
      last (ok item) =
          ap (λ f. delay m (wrap f))
            (handled H C into_response into (h item req.req) (wait item) (result item) req.req
              (k item))
          ∙ ap (delay m) (
              wrap-after P (wait item)
                (new_response H req.req (response_of H into_response into (result item))))
          ∙ delay-after m (wait item)
              (ok (new_response H req.req (response_of H into_response into (result item))))

-- A route made by `to` answers every request: where the extraction of a request takes m polls and
-- fails, the answer after m polls is the response of that error; where it gives an item and what
-- the handler returns for it takes k polls to respond, the answer after m + k polls is that
-- response, or the response of its error. It never fails and never panics.
pub pipeline-answer :
    {H : HttpTypes} {P T R : Type 0} (C : Combinators) (t : FromRequest H P T) (r : Responder H R)
    (hnd : T → R) (req req' : ServiceRequest P) (m : ℕ) (x : Result T t.Error) (wait : T → ℕ)
    (result : T → Result H.Response r.Error)
    → t.from_request req ≡ (after m x, req')
    → ((item : T) → r.respond_to (hnd item) req'.req ≡ after (wait item) (result item))
    → pipeline H C t r hnd req ≡ answer_of H t.into (λ res. res) r.into req' m wait result x
unfolding pipeline
pipeline-answer {H} C t r hnd req req' m x wait result e k =
    ap
      (λ p. wrap (
        and_then C (extracting H t.into p.0 (some p.1)) (λ arg.
          expect_ok C
            (handling H (λ res. res) r.into (r.respond_to (hnd arg.0) arg.1) (some arg.1)))))
      e
    ∙ answered H C t.into (λ res. res) r.into (λ item. r.respond_to (hnd item)) req' m wait result x
        k

-- The same for a route made by `to_async`, whose handler returns the future itself.
pub pipeline_async-answer :
    {H : HttpTypes} {P T A E : Type 0} (C : Combinators) (t : FromRequest H P T)
    (into_response : A → H.Response) (into : E → H.Error) (hnd : T → Fut A E)
    (req req' : ServiceRequest P) (m : ℕ) (x : Result T t.Error) (wait : T → ℕ)
    (result : T → Result A E)
    → t.from_request req ≡ (after m x, req')
    → ((item : T) → hnd item ≡ after (wait item) (result item))
    → pipeline_async H C t into_response into hnd req
      ≡ answer_of H t.into into_response into req' m wait result x
unfolding pipeline_async
pipeline_async-answer {H} C t into_response into hnd req req' m x wait result e k =
    ap
      (λ p. wrap (
        and_then C (extracting H t.into p.0 (some p.1))
          (λ arg. expect_ok C (handling H into_response into (hnd arg.0) (some arg.1)))))
      e
    ∙ answered H C t.into into_response into (λ item _. hnd item) req' m wait result x k
