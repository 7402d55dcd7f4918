-- ===== src/Framed/Pipeline.antt =====
-- What a route of src/framed_route.rs comes to: the extraction of an argument, then the handler.
use actix_web.Prelude.{ℕ, zero, suc, ◌+◌, Option, none, some, Result, ok, err, ◌≡◌, refl, ap, ◌∙◌}
use actix_web.Futures.{Fut, later, now, spent, after, poll_fut}
use actix_web.Futures.Drive.{IsFuture}
use actix_web.Futures.Combinators.{
  Combinators, and_then, chain-after, delay, delay-after, delay-now, if_ok,
}
use actix_web.Http.{HttpTypes}
use actix_web.Framed.{
  FramedError, FramedRequest, FramedExtractor, FramedRouteServiceResponse, handle, poll_handle,
  extract, poll_extract, poll_route, call_route, FramedRouteService, to_unit,
}

-- The futures that the responses are.
abbrev pub handling : {E G : Type 0} → Fut (Unit {0}) E → Fut (Unit {0}) G
handling (later f) = later (handling f)
handling (now (ok u)) = now (ok u)
handling (now (err e)) = now (ok tt)
handling spent = spent

abbrev pub extracting :
    {F Ex T E G : Type 0}
    → (E → G)
    → Fut T E
    → Option (FramedRequest F Ex)
    → Fut (T × FramedRequest F Ex) (FramedError G F)
extracting into (later f) req = later (extracting into f req)
extracting into spent req = spent
extracting into (now r) none = spent
extracting into (now (ok item)) (some req) = now (ok (item, req))
extracting into (now (err e)) (some req) = now (err (record { err = into e; framed = req.framed }))

abbrev pub responding : {A E : Type 0} → Fut A E → Fut (Unit {0}) (Unit {0})
responding (later f) = later (responding f)
responding (now (ok a)) = now (ok tt)
responding (now (err e)) = now (err tt)
responding spent = spent

abbrev pub route_future :
    {A E S : Type 0} → FramedRouteServiceResponse A E S → Fut (Unit {0}) (Unit {0})
route_future s = elim s.send [ none ↦ responding s.fut | some send ↦ responding send ]

pub poll_handle-IsFuture : {E G : Type 0} → IsFuture (poll_handle {E = E} {G = G}) handling
unfolding poll_handle
poll_handle-IsFuture (later f) = refl
poll_handle-IsFuture (now (ok u)) = refl
poll_handle-IsFuture (now (err e)) = refl
poll_handle-IsFuture spent = refl

pub poll_extract-IsFuture :
    {F Ex T E G : Type 0} (into : E → G)
    → IsFuture (poll_extract {F = F} {Ex = Ex} {T = T} into) (λ s. extracting into s.fut s.req)
unfolding poll_extract
poll_extract-IsFuture {F} {Ex} {T} {E} into s = go s.fut s.req
  where
    go :
        (fut : Fut T E) (req : Option (FramedRequest F Ex))
        → poll_fut (extracting into fut req) ≡ (
          (poll_extract into (record { fut = fut; req = req })).0,
          extracting into
              (poll_extract into (record { fut = fut; req = req })).1.fut
              (poll_extract into (record { fut = fut; req = req })).1.req,
        )
    go (later f) none = refl
    go (later f) (some req) = refl
    go spent none = refl
    go spent (some req) = refl
    go (now (ok item)) none = refl
    go (now (err e)) none = refl
    go (now (ok item)) (some req) = refl
    go (now (err e)) (some req) = refl

poll_responding :
    {A E : Type 0} (fut : Fut A E)
    → poll_fut (responding fut) ≡ (to_unit (poll_fut fut).0, responding (poll_fut fut).1)
poll_responding (later f) = refl
poll_responding (now (ok a)) = refl
poll_responding (now (err e)) = refl
poll_responding spent = refl

pub poll_route-IsFuture :
    {A E S : Type 0} → IsFuture (poll_route {A = A} {E = E} {S = S}) route_future
unfolding poll_route
poll_route-IsFuture {A} {E} {S} s = go s.fut s.send
  where
    go :
        (fut : Fut A E) (send : Option (Fut (Unit {0}) S))
        → poll_fut (route_future (record { fut = fut; send = send })) ≡ (
          (poll_route (record { fut = fut; send = send })).0,
          route_future (poll_route (record { fut = fut; send = send })).1,
        )
    go fut none = poll_responding fut
    go fut (some send) = poll_responding send

module _ {H : HttpTypes} {F Ex T E : Type 0} where
  -- The service of `FramedRoutePatternBuilder::with` and `FramedRouteBuilder::with`.
  unfoldable pub pipeline :
      Combinators
      → FramedExtractor H T
      → (F → T → Ex → Fut (Unit {0}) E)
      → FramedRequest F Ex
      → Fut (Unit {0}) (FramedError H.Error F)
  pipeline C t hnd req =
      and_then C (extracting t.into (extract t req).fut (extract t req).req)
        (λ arg. handling (handle hnd arg))

-- The outcome of a route, and after how many polls: an error where the extraction fails.
abbrev pub outcome : {T X : Type 0} → ℕ → (T → ℕ) → Result T X → Fut (Unit {0}) (Unit {0})
outcome m wait (ok item) = after (m + wait item) (ok tt)
outcome m wait (err e) = after m (err tt)

handling-after :
    {E : Type 0} (G : Type 0) (n : ℕ) (r : Result (Unit {0}) E)
    → handling {G = G} (after n r) ≡ after n (ok tt)
handling-after G zero (ok u) = refl
handling-after G zero (err e) = refl
handling-after G (suc n) r = ap later (handling-after G n r)

pub responding-delay :
    {A E : Type 0} (n : ℕ) (f : Fut A E) → responding (delay n f) ≡ delay n (responding f)
responding-delay zero f = refl
responding-delay (suc n) f = ap later (responding-delay n f)

responding-after :
    (E : Type 0) (n : ℕ) → responding {A = Unit {0}} {E = E} (after n (ok tt)) ≡ after n (ok tt)
responding-after E zero = refl
responding-after E (suc n) = ap later (responding-after E n)

-- A result with the request, or with its connection.
abbrev extraction :
    {F Ex T E G : Type 0}
    → (E → G)
    → FramedRequest F Ex
    → Result T E
    → Result (T × FramedRequest F Ex) (FramedError G F)
extraction into req (ok item) = ok (item, req)
extraction into req (err e) = err (record { err = into e; framed = req.framed })

extracting-after :
    {F Ex T E G : Type 0} (into : E → G) (n : ℕ) (r : Result T E) (req : FramedRequest F Ex)
    → extracting into (after n r) (some req) ≡ after n (extraction into req r)
extracting-after into zero (ok item) req = refl
extracting-after into zero (err e) req = refl
extracting-after into (suc n) r req = ap later (extracting-after into n r req)

-- A route answers every request: where the extraction of the argument takes m polls and fails, the
-- response fails after m polls; where it gives an item and the handler takes k polls for it, the
-- response is done after m + k polls without an error, whether the handler has failed or not. The
-- methods and the pattern of the route have no part in it.
pub poll_route-outcome :
    {H : HttpTypes} {F Ex T E : Type 0} (S : Type 0) (C : Combinators) (t : FramedExtractor H T)
    (hnd : F → T → Ex → Fut (Unit {0}) E) (rt : FramedRouteService F Ex H.Error)
    (req : FramedRequest F Ex) (m : ℕ) (x : Result T t.Error) (wait : T → ℕ)
    (result : T → Result (Unit {0}) E)
    → rt.service ≡ pipeline C t hnd
    → t.from_request req.req ≡ after m x
    → ((item : T) → hnd req.framed item req.param ≡ after (wait item) (result item))
    → route_future (call_route S rt req) ≡ outcome m wait x
unfolding pipeline
poll_route-outcome {H} {F} {Ex} {T} {E} S C t hnd rt req m x wait result made e k =
    ap (λ service. responding (service req)) made
    ∙ ap (λ f. responding (and_then C (extracting t.into f (some req)) next)) e
    ∙ ap (λ f. responding (and_then C f next)) (extracting-after t.into m x req)
    ∙ ap responding (chain-after C m (extraction t.into req x) (if_ok next))
    ∙ responding-delay m (if_ok next (extraction t.into req x))
    ∙ last x
  where
    next : T × FramedRequest F Ex → Fut (Unit {0}) (FramedError H.Error F)
    next arg = handling (handle hnd arg)

    last :
        (x : Result T t.Error)
        → delay m (responding (if_ok next (extraction t.into req x))) ≡ outcome m wait x
    last (err e) = delay-now m (err tt)
    last (ok item) =
        ap (λ f. delay m (responding (handling {G = FramedError H.Error F} f))) (k item)
        ∙ ap (λ f. delay m (responding f))
            (handling-after (FramedError H.Error F) (wait item) (result item))
        ∙ ap (delay m) (responding-after (FramedError H.Error F) (wait item))
        ∙ delay-after m (wait item) (ok tt)
