-- ===== src/Handler/Arguments.antt =====
-- Handlers of several arguments: the tuple of src/extractor.rs as what is extracted for the handler
-- of a route (src/handler.rs, src/route.rs). What `factory_tuple!` makes of the handler is a
-- function of the list of the arguments.
use actix_web.Prelude.{ℕ, suc, ◌+◌, ◌≤◌, List, ◌∷◌, ◌++◌, ◌≡◌, refl, ap, ◌∙◌, Result, ok, err, All}
use actix_web.Futures.{Fut, after}
use actix_web.Futures.Combinators.{Combinators}
use actix_web.Http.{HttpTypes, ServiceRequest, ServiceResponse, new_response, error_response}
use actix_web.Extractor.{tuple, tuple_from_request}
use actix_web.Extractor.Parts.{Part, futures, Quiet}
use actix_web.Extractor.Tuple.{given, values}
use actix_web.Extractor.Outcome.{
  tuple_future, AllAlive, tuple_future-given, tuple_future-failed, tuple_future-after,
}
use actix_web.Handler.{FromRequest, Responder}
use actix_web.Handler.Pipeline.{pipeline}
use actix_web.Handler.Answer.{pipeline-answer, answer_of, response_of}

-- `FromRequest` of a tuple, of those of its parts.
abbrev pub arguments :
    {H : HttpTypes} {P V E : Type 0}
    → (E → H.Error)
    → List (ServiceRequest P → Fut V E × ServiceRequest P)
    → FromRequest H P (List V)
arguments {H} into parts = record {
  Error = H.Error;
  into = λ e. e;
  from_request =
      λ req. let (slots, req') = tuple_from_request parts req in (tuple_future into slots, req');
}

answer_comes :
    {H : HttpTypes} {P T R : Type 0} (r : Responder H R) (req : ServiceRequest P) (m : ℕ)
    (wait : T → ℕ) (result : T → Result H.Response r.Error) (x : Result T H.Error)
    → (k : ℕ) × (res : ServiceResponse H) × (answer_of H {P = P} {T = T}
          (λ e. e)
          (λ res. res)
          r.into
          req
          m
          wait
          result
          x
        ≡ after k (ok res))
answer_comes {H} r req m wait result (ok item) =
    (m + wait item, new_response H req.req (response_of H (λ res. res) r.into (result item)), refl)
answer_comes {H} r req m wait result (err e) = (m, error_response H req e, refl)

-- A handler of several arguments, each of which is extracted within n polls, is called with all of
-- them, in their order, and its response is the answer; the extraction takes at most n polls.
pub pipeline-arguments :
    {H : HttpTypes} {P V E R : Type 0} (C : Combinators) (into : E → H.Error)
    (parts : List (ServiceRequest P → Fut V E × ServiceRequest P)) (r : Responder H R)
    (hnd : List V → R) (req req' : ServiceRequest P) (n : ℕ) (vs : List (ℕ × V)) (wait : List V → ℕ)
    (result : List V → Result H.Response r.Error)
    → tuple_from_request parts req ≡ (tuple (futures {V = V} {E = E} (given vs)), req')
    → All (λ v. v.0 ≤ n) vs
    → ((args : List V) → r.respond_to (hnd args) req'.req ≡ after (wait args) (result args))
    → (m : ℕ) × (m ≤ n)
      × (pipeline H C (arguments into parts) r hnd req
          ≡ after (m + wait (values vs)) (
              ok
                (new_response H req'.req (response_of H (λ res. res) r.into (result (values vs))))))
pipeline-arguments {H} {E = E} C into parts r hnd req req' n vs wait result e h k =
    let (m, l, q) = tuple_future-given {E = E} into n vs h in
    (
      m,
      l,
      pipeline-answer C (arguments into parts) r hnd req req' m (ok (values vs)) wait result
          (ap (λ p. (tuple_future into p.0, p.1)) e ∙ ap (λ f. (f, req')) q) k,
    )

-- Where the argument that fails first fails after m polls, and none of those before it in the list
-- fails at that poll, the answer is the response of its error, and comes within m polls.
pub pipeline-failed_argument :
    {H : HttpTypes} {P V E R : Type 0} (C : Combinators) (into : E → H.Error)
    (parts : List (ServiceRequest P → Fut V E × ServiceRequest P)) (r : Responder H R)
    (hnd : List V → R) (req req' : ServiceRequest P) (m : ℕ) (before : List (Part V E)) (e : E)
    (behind : List (Part V E)) (wait : List V → ℕ) (result : List V → Result H.Response r.Error)
    → tuple_from_request parts req ≡ (tuple (futures (before ++ (m, err e) ∷ behind)), req')
    → Quiet (suc m) before
    → Quiet m behind
    → ((args : List V) → r.respond_to (hnd args) req'.req ≡ after (wait args) (result args))
    → (k : ℕ) × (k ≤ m)
      × (pipeline H C (arguments into parts) r hnd req
          ≡ after k (ok (error_response H req' (into e))))
pipeline-failed_argument {H} C into parts r hnd req req' m before e behind wait result eq p q k =
    let (t, l, u) = tuple_future-failed into m before e behind p q in
    (
      t,
      l,
      pipeline-answer C (arguments into parts) r hnd req req' t (err (into e)) wait result
          (ap (λ p. (tuple_future into p.0, p.1)) eq ∙ ap (λ f. (f, req')) u) k,
    )

-- A route whose handler takes several arguments answers every request: where the extraction of each
-- argument is a future that is not done, and the handler's responses come after some polls, there
-- is an answer, without an error and without a panic.
pub pipeline-arguments_answer :
    {H : HttpTypes} {P V E R : Type 0} (C : Combinators) (into : E → H.Error)
    (parts : List (ServiceRequest P → Fut V E × ServiceRequest P)) (r : Responder H R)
    (hnd : List V → R) (req req' : ServiceRequest P) (futs : List (Fut V E)) (wait : List V → ℕ)
    (result : List V → Result H.Response r.Error)
    → tuple_from_request parts req ≡ (tuple futs, req')
    → AllAlive futs
    → ((args : List V) → r.respond_to (hnd args) req'.req ≡ after (wait args) (result args))
    → (k : ℕ) × (res : ServiceResponse H) × (pipeline H C (arguments into parts) r hnd req
        ≡ after k (ok res))
pipeline-arguments_answer {H} C into parts r hnd req req' futs wait result e h k =
    let (m, x, q) = tuple_future-after into futs h in
    let (t, res, u) = answer_comes r req' m wait result x in
    (
      t,
      res,
      pipeline-answer C (arguments into parts) r hnd req req' m x wait result
            (ap (λ p. (tuple_future into p.0, p.1)) e ∙ ap (λ f. (f, req')) q) k
          ∙ u,
    )
