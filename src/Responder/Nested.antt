-- ===== src/Responder/Nested.antt =====
-- What the futures of src/responder.rs come to, and the response of nested return types.
use actix_web.Prelude.{ℕ, zero, suc, ◌+◌, Option, none, some, Result, ok, err, ◌≡◌, refl, ap, ◌∙◌}
use actix_web.Futures.{Fut, later, now, spent, after, poll_fut}
use actix_web.Futures.Drive.{IsFuture}
use actix_web.Futures.Combinators.{
  Combinators, and_then, chain-after, delay, delay-after, delay-now, if_ok, err_mapped,
}
use actix_web.Http.{HttpRequest, HttpTypes}
use actix_web.Handler.{Responder}
use actix_web.Responder.{
  Responses, left, right, poll_response, poll_either, converted, converted_either, option, result,
  future,
}

poll_converted :
    {A E F : Type 0} (into : E → F) (fut : Fut A E)
    → poll_fut (converted into fut)
      ≡ ((poll_response into fut).0, converted into (poll_response into fut).1)
unfolding poll_response
poll_converted into (later f) = refl
poll_converted into (now (ok a)) = refl
poll_converted into (now (err e)) = refl
poll_converted into spent = refl

-- The polls of `EitherResponder` are those of the future of its side, with its errors converted, and
-- it never changes its side.
pub poll_either-IsFuture :
    {A E F G : Type 0} (into_left : E → G) (into_right : F → G)
    → IsFuture (poll_either {A = A} into_left into_right) (converted_either into_left into_right)
unfolding poll_either poll_response
poll_either-IsFuture into_left into_right (left fut) = poll_converted into_left fut
poll_either-IsFuture into_left into_right (right fut) = poll_converted into_right fut

-- `Result::map_err`.
abbrev pub mapped_err : {A E F : Type 0} → (E → F) → Result A E → Result A F
mapped_err into (ok a) = ok a
mapped_err into (err e) = err (into e)

module _ {H : HttpTypes} where
  -- The response of a future of a result of an option, by what the future gives, what the values
  -- come to and after how many polls.
  abbrev pub nested :
      {T E F : Type 0}
      → Responses H
      → (t : Responder H T) → (E → H.Error)
      → (F → H.Error)
      → ℕ
      → (T → ℕ)
      → (T → Result H.Response t.Error)
      → Result (Result (Option T) E) F
      → Fut H.Response H.Error
  nested R t into_e into_f m wait outcome (err f) = after m (err (into_f f))
  nested R t into_e into_f m wait outcome (ok (err e)) = after m (err (into_e e))
  nested R t into_e into_f m wait outcome (ok (ok none)) = after m (ok (R.finished 404))
  nested R t into_e into_f m wait outcome (ok (ok (some v))) =
      after (m + wait v) (mapped_err t.into (outcome v))

-- A handler that returns a future of a result of an option of values that respond: where the future
-- takes m polls, the answer comes after m polls and is the error of the future, the error of the
-- result, or 404 for nothing; for a value it comes when the value has responded, and is its response
-- or its error.
pub future_respond-nested :
    {H : HttpTypes} {T E F : Type 0} (C : Combinators) (R : Responses H) (t : Responder H T)
    (into_e : E → H.Error) (into_f : F → H.Error) (m : ℕ) (x : Result (Result (Option T) E) F)
    (req : HttpRequest) (wait : T → ℕ) (outcome : T → Result H.Response t.Error)
    → ((v : T) → t.respond_to v req ≡ after (wait v) (outcome v))
    → (future C (result (option R t) into_e) into_f).respond_to (after m x) req
      ≡ nested R t into_e into_f m wait outcome x
future_respond-nested {H} {T} {E} {F} C R t into_e into_f m x req wait outcome h =
    ap (λ f. and_then C f next) (chain-after C m x (err_mapped into_f) ∙ delay_mapped x)
    ∙ chain-after C m (mapped_err into_f x) (if_ok next)
    ∙ last x
  where
    next : Result (Option T) E → Fut H.Response H.Error
    next v = converted (λ e. e) ((result (option R t) into_e).respond_to v req)

    delay_mapped :
        (x : Result (Result (Option T) E) F)
        → delay m (err_mapped into_f x) ≡ after m (mapped_err into_f x)
    delay_mapped (ok v) = delay-now m (ok v)
    delay_mapped (err f) = delay-now m (err (into_f f))

    twice :
        (n : ℕ) (r : Result H.Response t.Error)
        → converted (λ (e : H.Error). e) (converted t.into (after n r))
          ≡ after n (mapped_err t.into r)
    twice zero (ok a) = refl
    twice zero (err e) = refl
    twice (suc n) r = ap later (twice n r)

    last :
        (x : Result (Result (Option T) E) F)
        → delay m (if_ok next (mapped_err into_f x)) ≡ nested R t into_e into_f m wait outcome x
    last (err f) = delay-now m (err (into_f f))
    last (ok (err e)) = delay-now m (err (into_e e))
    last (ok (ok none)) = delay-now m (ok (R.finished 404))
    last (ok (ok (some v))) =
        ap (λ f. delay m (converted (λ e. e) (converted t.into f))) (h v)
        ∙ ap (delay m) (twice (wait v) (outcome v))
        ∙ delay-after m (wait v) (mapped_err t.into (outcome v))
