-- ===== src/Handler/Tests.antt =====
-- A handler that adds one to a number that is extracted from the method of a request
-- (src/handler.rs), and what its route answers.
use text.Mathlib.Text.{◌==◌ as str_eq}
use actix_web.Prelude.{
  ℕ, zero, suc, ap, ◌+◌, ◌≡◌, refl, none, inl, ok, err, List, [], ◌∷◌, ◌++◌, if◌then◌else◌,
}
use actix_web.Prelude.Text.{codes}
use actix_web.Futures.{Fut, later, now, spent, after, longest, ready}
use actix_web.Futures.Direct.{direct}
use actix_web.Http.{HttpTypes, ServiceRequest, new_response, absent, stream}
use actix_web.Handler.{Responder, FromRequest}
use actix_web.Handler.Answer.{pipeline-answer}
use actix_web.Handler.Pipeline.{pipeline}
use actix_web.Filter.{push, check}
use actix_web.Route.{build, method, check_filters}
use actix_web.Resource.{ResourceService, new, create, call}
use actix_web.Resource.Create.{drive}
use actix_web.Resource.Handlers.{Handled, register, register-answer}
use actix_web.Handler.Factory.{
  Joins, route_to, route_to_async, route_to-answer, route_to_async-answer, Serves,
}

abbrev types : HttpTypes
types = record { Response = ℕ; Error = ℕ; not_found = 404; from_error = λ e. e }

-- A number, which is late; for another method than POST, an error.
abbrev number : FromRequest types ℕ ℕ
number = record {
  Error = ℕ;
  into = λ e. e;
  from_request = λ req. (
    after 2 (if str_eq req.req.method "POST" then ok 7 else err 400),
    record req { payload = absent },
  );
}

abbrev slow : Responder types ℕ
slow = record { Error = ℕ; into = λ e. e; respond_to = λ n req. after 1 (ok (200 + n)) }

abbrev post : ServiceRequest ℕ
post = record {
  req = record {
    method = "POST";
    path = "/";
    query = none;
    header = λ name. none;
    match_path = codes "/";
  };
  payload = stream 3;
}

abbrev taken : ServiceRequest ℕ
taken = record post { payload = absent }

number_answered :
    pipeline types direct number slow (λ n. n + 1) post
    ≡ after 3 (ok (new_response types post.req 208))
number_answered =
    pipeline-answer direct number slow (λ n. n + 1) post taken 2 (ok 7) (λ n. 1)
      (λ n. ok (200 + (n + 1))) refl (λ n. refl)

-- Two services, each as soon as it is there.
abbrev pub both_services : (A B E : Type 0) → Fut A E → Fut B E → Fut (A × B) E
both_services A B E (now (err e)) g = now (err e)
both_services A B E spent g = spent
both_services A B E (now (ok a)) (later g) = later (both_services A B E (now (ok a)) g)
both_services A B E (now (ok a)) (now (ok b)) = now (ok (a, b))
both_services A B E (now (ok a)) (now (err e)) = now (err e)
both_services A B E (now (ok a)) spent = spent
both_services A B E (later f) (later g) = later (both_services A B E f g)
both_services A B E (later f) (now (err e)) = now (err e)
both_services A B E (later f) (now (ok b)) = later (both_services A B E f (now (ok b)))
both_services A B E (later f) spent = spent

both_services-later :
    (A B E : Type 0) (m : ℕ) (a : A) (b : B)
    → both_services A B E (after m (ok a)) (now (ok b)) ≡ after m (ok (a, b))
both_services-later A B E zero a b = refl
both_services-later A B E (suc m) a b = ap later (both_services-later A B E m a b)

pub both_services-after :
    (A B E : Type 0) (m n : ℕ) (a : A) (b : B)
    → both_services A B E (after m (ok a)) (after n (ok b)) ≡ after (longest m n) (ok (a, b))
both_services-after A B E zero zero a b = refl
both_services-after A B E zero (suc n) a b = ap later (both_services-after A B E zero n a b)
both_services-after A B E (suc m) zero a b = ap later (both_services-later A B E m a b)
both_services-after A B E (suc m) (suc n) a b = ap later (both_services-after A B E m n a b)

abbrev pub joins : Joins
joins = record { both = both_services; both-after = both_services-after }

route_to-answer_example :
    Serves direct joins
      (method build "POST")
      (route_to direct joins (method build "POST") number slow (λ n. n + 1))
      post
      (after 3 (ok (new_response types post.req 208)))
route_to-answer_example =
    route_to-answer direct joins (method build "POST") number slow (λ n. n + 1) post taken 2 (ok 7)
      (λ n. 1) (λ n. ok (200 + (n + 1))) refl (λ n. refl)

-- A handler whose own future fails.
abbrev failing : ℕ → Fut ℕ ℕ
failing n = after n (err n)

async_answered :
    Serves direct joins build
      (route_to_async direct joins build number (λ n. n) (λ e. e) failing)
      post
      (after 9 (ok (new_response types post.req 7)))
async_answered =
    route_to_async-answer direct joins build number (λ n. n) (λ e. e) failing post taken 2 (ok 7)
      (λ n. n) (λ n. err n) refl (λ n. refl)

-- A resource of three handlers: the one in front refuses the request, the last is not asked.
abbrev handlers : List (Handled ℕ ℕ)
handlers = record { builder = λ b. method b "GET"; hnd = λ n. n } ∷ []

register-answer_example :
    (rs : ResourceService types ℕ) × (drive 1 (
        create (
          register direct joins number slow new (
            handlers
            ++ record { builder = λ b. method b "POST"; hnd = λ n. n + 1 }
              ∷ record { builder = λ b. b; hnd = λ n. n + 2 }
              ∷ [])))
      ≡ ready rs)
    × (call rs post ≡ after 3 (ok (new_response types post.req 208)))
unfolding check_filters method push check
register-answer_example =
    register-answer direct joins number slow handlers
      (record { builder = λ b. b; hnd = λ n. n + 2 } ∷ [])
      (record { builder = λ b. method b "POST"; hnd = λ n. n + 1 }) post taken 2 (ok 7) (λ n. 1)
      (λ n. ok (200 + (n + 1))) (inl refl, tt) (refl, tt) refl (λ n. refl)
