-- ===== src/Framed/Built.antt =====
-- What a route of src/framed_route.rs that is built for a handler does with a request, with and
-- without services that map the request first.
use actix_web.Prelude.{
  ℕ, zero, suc, ◌+◌, ◌≤◌, String, List, [], Result, ok, err, ◌≡◌, refl, ap, ◌∙◌, arith,
}
use actix_web.Futures.{Fut, ready, later, after, longest}
use actix_web.Futures.Drive.{drive}
use actix_web.Futures.Combinators.{
  Combinators, called, called-after, and_then, map_err, delay, if_ok, err_mapped, chain-after,
  delay-now, delay-after,
}
use actix_web.Http.{HttpTypes}
use actix_web.Handler.Factory.{Joins}
use actix_web.Framed.{
  FramedError, FramedRequest, FramedExtractor, FramedRouteService, handle, extract, call_route,
}
use actix_web.Framed.Pipeline.{
  pipeline, handling, extracting, route_future, outcome, poll_route-outcome, responding,
  responding-delay,
}
use actix_web.Framed.Route.{FramedRoutePatternBuilder, create, poll_create, drive_created}
use actix_web.Framed.Factory.{
  Mapping, FramedRouteBuilder, and_map, map_next, map_request, mapped_pipeline, with_next,
  with_handler, new_handle, new_extract, FramedExtract, FramedHandle, handle_service,
  extract_service,
}

longest_le : (m n k : ℕ) → m ≤ k → n ≤ k → longest m n ≤ k
longest_le zero n k h l = l
longest_le (suc m) zero k h l = h
longest_le (suc m) (suc n) zero h l = absurd (omega arith)
longest_le (suc m) (suc n) (suc k) h l =
    let i : longest m n ≤ k = longest_le m n k (omega arith) (omega arith) in omega arith

-- The service of a route, with a path, methods and headers.
abbrev pub route_of :
    {F Ex G : Type 0}
    → String
    → List String
    → List (String × String)
    → (FramedRequest F Ex → Fut (Unit {0}) (FramedError G F))
    → FramedRouteService F Ex G
route_of pattern methods headers service = record {
  service = service;
  pattern = pattern;
  methods = methods;
  headers = headers;
}

-- A route made by `with`, without a map, is created by its first poll, with the path, the methods
-- and the headers of its builder. Where the extraction takes m polls and fails, its response fails
-- after m polls; where it gives an item and the handler takes k polls for it, the response is done
-- after m + k polls without an error, whether the handler has failed or not.
pub with_handler-outcome :
    {H : HttpTypes} {F T E Config : Type 0} (S : Type 0) (C : Combinators) (J : Joins)
    (b : FramedRoutePatternBuilder) (default : Config) (t : Config → FramedExtractor H T)
    (hnd : F → T → Unit {0} → Fut (Unit {0}) E) (req : FramedRequest F (Unit {0})) (m : ℕ)
    (x : Result T (t default).Error) (wait : T → ℕ) (result : T → Result (Unit {0}) E)
    → (t default).from_request req.req ≡ after m x
    → ((item : T) → hnd req.framed item req.param ≡ after (wait item) (result item))
    → (service : FramedRequest F (Unit {0}) → Fut (Unit {0}) (FramedError H.Error F)) × (drive
          poll_create 1
          (create (with_handler C J b default t hnd))
        ≡ ready (route_of b.pattern b.methods b.headers service))
      × (route_future (call_route S (route_of b.pattern b.methods b.headers service) req)
          ≡ outcome m wait x)
unfolding with_handler drive poll_create
with_handler-outcome S C J b default t hnd req m x wait result e k = (
  pipeline C (t default) hnd,
  ap
      (λ f. drive poll_create 1 (record {
        fut = called (λ s. pipeline C (t s.0.cfg) s.1.hnd) f;
        pattern = b.pattern;
        methods = b.methods;
        headers = b.headers;
      }))
      (J.both-after _ _ _ 0 0 (new_extract default) (new_handle hnd)),
  poll_route-outcome S C (t default) hnd
      (route_of b.pattern b.methods b.headers (pipeline C (t default) hnd)) req m x wait result refl
      e k,
)

-- What maps a request and is done: for each request a number of polls and a result.
abbrev Maps :
    {F U1 U2 G : Type 0}
    → Mapping F U1 U2 G
    → (FramedRequest F U1 → ℕ)
    → (FramedRequest F U1 → Result (FramedRequest F U2) (FramedError G F))
    → Type 0
Maps s wait result = (req : _) → s req ≡ after (wait req) (result req)

-- The outcome of a route behind a map, and after how many polls.
abbrev pub mapped_outcome :
    {F U G : Type 0}
    → ℕ
    → (FramedRequest F U → Fut (Unit {0}) (Unit {0}))
    → Result (FramedRequest F U) (FramedError G F)
    → Fut (Unit {0}) (Unit {0})
mapped_outcome j next (ok r) = delay j (next r)
mapped_outcome j next (err e) = after j (err tt)

-- Two maps, one after the other.
abbrev pub and_mapped :
    {F U2 U3 G : Type 0}
    → ℕ
    → (FramedRequest F U2 → ℕ)
    → (FramedRequest F U2 → Result (FramedRequest F U3) (FramedError G F))
    → Result (FramedRequest F U2) (FramedError G F)
    → ℕ × Result (FramedRequest F U3) (FramedError G F)
and_mapped j wait result (ok r) = (j + wait r, result r)
and_mapped j wait result (err e) = (j, err e)

module _ (C : Combinators) where
  map_err-same :
      {A E : Type 0} (n : ℕ) (r : Result A E) → map_err C (after n r) (λ e. e) ≡ after n r
  map_err-same n (ok a) = chain-after C n (ok a) (err_mapped (λ e. e)) ∙ delay-now n (ok a)
  map_err-same n (err e) = chain-after C n (err e) (err_mapped (λ e. e)) ∙ delay-now n (err e)

  and_then-delay :
      {A B E : Type 0} (n : ℕ) (f : Fut A E) (k : A → Fut B E)
      → and_then C (delay n f) k ≡ delay n (and_then C f k)
  and_then-delay zero f k = refl
  and_then-delay {A} {B} {E} (suc n) f k =
      C.chain-later A B E E (delay n f) (if_ok k) ∙ ap later (and_then-delay n f k)

  and_then-err :
      {A B E : Type 0} (n : ℕ) (e : E) (k : A → Fut B E)
      → and_then C (after n (err e)) k ≡ after n (err e)
  and_then-err n e k = chain-after C n (err e) (if_ok k) ∙ delay-now n (err e)

  and_map-after :
      {F U1 U2 U3 G : Type 0} (s : Mapping F U1 U2 G) (md : Mapping F U2 U3 G)
      (req : FramedRequest F U1) (j : ℕ) (y : Result (FramedRequest F U2) (FramedError G F))
      (wait : FramedRequest F U2 → ℕ)
      (result : FramedRequest F U2 → Result (FramedRequest F U3) (FramedError G F))
      → s req ≡ after j y
      → ((r : FramedRequest F U2) → md r ≡ after (wait r) (result r))
      → and_map C s md req ≡ after (and_mapped j wait result y).0 (and_mapped j wait result y).1
  and_map-after s md req j y wait result h k =
      ap (λ f. and_then C (map_err C f (λ e. e)) md) h
      ∙ ap (λ f. and_then C f md) (map_err-same j y)
      ∙ go y
    where
      go :
          (y : Result (FramedRequest _ _) (FramedError _ _))
          → and_then C (after j y) md
            ≡ after (and_mapped j wait result y).0 (and_mapped j wait result y).1
      go (ok r) =
          chain-after C j (ok r) (if_ok md) ∙ ap (delay j) (k r) ∙ delay-after j (wait r) (result r)
      go (err e) = and_then-err j e md

responding-failed :
    {E : Type 0} (A : Type 0) (n : ℕ) (e : E)
    → responding {A = A} (after n (err e)) ≡ after n (err tt)
responding-failed A zero e = refl
responding-failed A (suc n) e = ap later (responding-failed A n e)

module _ {H : HttpTypes} {F U1 U2 T E : Type 0} (S : Type 0) (C : Combinators) where
  mapped_pipeline-outcome :
      (s : Mapping F U1 U2 H.Error) (t : FramedExtractor H T) (hnd : F → T → U2 → Fut (Unit {0}) E)
      (req : FramedRequest F U1) (j : ℕ) (y : Result (FramedRequest F U2) (FramedError H.Error F))
      (m : FramedRequest F U2 → ℕ) (x : FramedRequest F U2 → Result T t.Error)
      (wait : FramedRequest F U2 → T → ℕ) (result : FramedRequest F U2 → T → Result (Unit {0}) E)
      → s req ≡ after j y
      → ((r : FramedRequest F U2) → t.from_request r.req ≡ after (m r) (x r))
      → ((r : FramedRequest F U2) (item : T)
          → hnd r.framed item r.param ≡ after (wait r item) (result r item))
      → responding (mapped_pipeline C s t hnd req)
        ≡ mapped_outcome j (λ r. outcome (m r) (wait r) (x r)) y
  unfolding pipeline
  mapped_pipeline-outcome s t hnd req j y m x wait result h e k =
      ap (λ f. responding (and_then C (and_then C f extraction) answering)) h ∙ go y
    where
      extraction : FramedRequest F U2 → Fut (T × FramedRequest F U2) (FramedError H.Error F)
      extraction r = extracting t.into (extract t r).fut (extract t r).req

      answering : T × FramedRequest F U2 → Fut (Unit {0}) (FramedError H.Error F)
      answering arg = handling (handle hnd arg)

      go :
          (y : Result (FramedRequest F U2) (FramedError H.Error F))
          → responding (and_then C (and_then C (after j y) extraction) answering)
            ≡ mapped_outcome j (λ r. outcome (m r) (wait r) (x r)) y
      go (ok r) =
          ap (λ f. responding (and_then C f answering)) (chain-after C j (ok r) (if_ok extraction))
          ∙ ap responding (and_then-delay C j (extraction r) answering)
          ∙ responding-delay j (and_then C (extraction r) answering)
          ∙ ap (delay j) (
              poll_route-outcome S C t hnd (route_of "" [] [] (pipeline C t hnd)) r (m r) (x r)
                (wait r) (result r) refl (e r) (k r))
      go (err b) =
          ap (λ f. responding (and_then C f answering)) (and_then-err C j b extraction)
          ∙ ap responding (and_then-err C j b answering)
          ∙ responding-failed _ j b

module _ {F U1 U2 G : Type 0} (C : Combinators) (J : Joins) where
  map_next-service :
      {U3 : Type 0} (b : FramedRouteBuilder F U1 U2 G) (k n : ℕ) (s : Mapping F U1 U2 G)
      (md : Mapping F U2 U3 G)
      → b.service ≡ after k (ok s)
      → (map_next C J b (after n (ok md))).service ≡ after (longest k n) (ok (and_map C s md))
  unfolding map_next
  map_next-service b k n s md h =
      ap (λ f. called (λ s. and_map C s.0 s.1) (J.both _ _ _ f (after n (ok md)))) h
      ∙ ap (called (λ s. and_map C s.0 s.1)) (J.both-after _ _ _ k n s md)
      ∙ called-after (λ s. and_map C s.0 s.1) (longest k n) (s, md)

module _ {H : HttpTypes} {F U1 U2 : Type 0} (C : Combinators) (J : Joins) where
  with_next-service :
      {T E Config : Type 0} (b : FramedRouteBuilder F U1 U2 H.Error) (k : ℕ)
      (s : Mapping F U1 U2 H.Error) (default : Config) (t : Config → FramedExtractor H T)
      (hnd : F → T → U2 → Fut (Unit {0}) E)
      → b.service ≡ after k (ok s)
      → (with_next C J b default t hnd).service
        ≡ after (longest (longest k 0) 0) (ok (mapped_pipeline C s (t default) hnd))
  unfolding with_next
  with_next-service {T} {E} {Config} b k s default t hnd h =
      ap (λ f. called service_of (J.both _ _ _ (J.both _ _ _ f extractor) handler)) h
      ∙ ap (λ f. called service_of (J.both _ _ _ f handler))
          (J.both-after _ _ _ k 0 s (new_extract default))
      ∙ ap (called service_of)
          (J.both-after _ _ _ (longest k 0) 0 (s, new_extract default) (new_handle hnd))
      ∙ called-after service_of (longest (longest k 0) 0) ((s, new_extract default), new_handle hnd)
    where
      service_of :
          (Mapping F U1 U2 H.Error × FramedExtract Config) × FramedHandle F T U2 E
          → FramedRequest F U1
          → Fut (Unit {0}) (FramedError H.Error F)
      service_of s = mapped_pipeline C s.0.0 (t s.0.1.cfg) s.1.hnd

      extractor : Fut (FramedExtract Config) (Unit {0})
      extractor = extract_service (new_extract default)

      handler : Fut (FramedHandle F T U2 E) (Unit {0})
      handler = handle_service (new_handle hnd)

-- A route made by two calls of `map` and `with`, whose services are created within n + 1 polls, is
-- created by then, with the path, the methods and the headers of its pattern builder. A request is
-- mapped by the first service, then by the second, then the argument is extracted and the handler
-- is called with what the second gave. The response fails at the poll at which a map or the
-- extraction fails, and what comes after is not polled; else it is done, when the handler is, at the
-- sum of all the polls, without an error.
pub with_next-outcome :
    {H : HttpTypes} {F U1 U2 T E Config : Type 0} (S : Type 0) (C : Combinators) (J : Joins)
    (b : FramedRoutePatternBuilder) (default : Config) (t : Config → FramedExtractor H T)
    (hnd : F → T → U2 → Fut (Unit {0}) E) (s1 : Mapping F (Unit {0}) U1 H.Error)
    (s2 : Mapping F U1 U2 H.Error) (n n1 n2 : ℕ) (req : FramedRequest F (Unit {0})) (j1 : ℕ)
    (y1 : Result (FramedRequest F U1) (FramedError H.Error F)) (j2 : FramedRequest F U1 → ℕ)
    (y2 : FramedRequest F U1 → Result (FramedRequest F U2) (FramedError H.Error F))
    (m : FramedRequest F U2 → ℕ) (x : FramedRequest F U2 → Result T (t default).Error)
    (wait : FramedRequest F U2 → T → ℕ) (result : FramedRequest F U2 → T → Result (Unit {0}) E)
    → n1 ≤ n
    → n2 ≤ n
    → s1 req ≡ after j1 y1
    → ((r : FramedRequest F U1) → s2 r ≡ after (j2 r) (y2 r))
    → ((r : FramedRequest F U2) → (t default).from_request r.req ≡ after (m r) (x r))
    → ((r : FramedRequest F U2) (item : T)
        → hnd r.framed item r.param ≡ after (wait r item) (result r item))
    → (service : FramedRequest F (Unit {0}) → Fut (Unit {0}) (FramedError H.Error F)) × (drive
          poll_create
          (suc n)
          (create (
            with_next C J
              (map_next C J (map_request b (after n1 (ok s1))) (after n2 (ok s2)))
              default
              t
              hnd))
        ≡ ready (route_of b.pattern b.methods b.headers service))
      × (route_future (call_route S (route_of b.pattern b.methods b.headers service) req)
          ≡ mapped_outcome
              (and_mapped j1 j2 y2 y1).0
              (λ r. outcome (m r) (wait r) (x r))
              (and_mapped j1 j2 y2 y1).1)
unfolding with_next map_next
with_next-outcome S C J b default t hnd s1 s2 n n1 n2 req j1 y1 j2 y2 m x wait result h1 h2 e1 e2 e
      k =
    (
      mapped_pipeline C (and_map C s1 s2) (t default) hnd,
      ap
            (λ f.
              drive poll_create (suc n)
                (record { fut = f; pattern = b.pattern; methods = b.methods; headers = b.headers }))
            (with_next-service C J
              (map_next C J (map_request b (after n1 (ok s1))) (after n2 (ok s2))) (longest n1 n2)
              (and_map C s1 s2) default t hnd
              (map_next-service C J (map_request b (after n1 (ok s1))) n1 n2 s1 s2 refl))
          ∙ drive_created n (longest (longest (longest n1 n2) 0) 0)
              (mapped_pipeline C (and_map C s1 s2) (t default) hnd) b.pattern b.methods b.headers
              (longest_le _ 0 n (longest_le _ 0 n (longest_le n1 n2 n h1 h2) (omega arith))
                (omega arith)),
      mapped_pipeline-outcome S C (and_map C s1 s2) (t default) hnd req (and_mapped j1 j2 y2 y1).0
          (and_mapped j1 j2 y2 y1).1 m x wait result (and_map-after C s1 s2 req j1 y1 j2 y2 e1 e2) e
          k,
    )
