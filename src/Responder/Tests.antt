-- ===== src/Responder/Tests.antt =====
-- Futures of values that respond (src/responder.rs).
use actix_web.Prelude.{ℕ, String, ◌≡◌, refl, none, some, ok, err}
use actix_web.Prelude.Text.{codes}
use actix_web.Futures.{Fut, after, now, poll_fut}
use actix_web.Futures.Direct.{direct}
use actix_web.Http.{HttpTypes, HttpRequest}
use actix_web.Responder.{
  Responses, Either, right, poll_either, converted_either, string, option, result, future,
}
use actix_web.Responder.Nested.{poll_either-IsFuture, future_respond-nested}

abbrev types : HttpTypes
types = record {
  Response = ℕ × String;
  Error = ℕ;
  not_found = (404, "");
  from_error = λ e. (e, "");
}

abbrev plain : Responses types
plain = record {
  with_text = λ status kind s. (status, s);
  with_bytes = λ status kind s. (status, "");
  finished = λ status. (status, "");
  ResponseBuilder = ℕ;
  finish = λ b. (b, "");
}

abbrev request : HttpRequest
request = record {
  method = "GET";
  path = "/";
  query = none;
  header = λ name. none;
  match_path = codes "/";
}

future_respond-nested_example :
    (future direct
        (result {E = ℕ} (option plain (string plain)) (λ e. e))
        (λ (e : ℕ). e)).respond_to
      (after 3 (ok (ok (some "hello"))))
      request
    ≡ after 3 (ok (200, "hello"))
future_respond-nested_example =
    future_respond-nested {F = ℕ} direct plain (string plain) (λ (e : ℕ). e) (λ e. e) 3
      (ok (ok (some "hello"))) request (λ s. 0) (λ s. ok (200, s)) (λ s. refl)

abbrev failing : Either (Fut ℕ ℕ) (Fut ℕ ℕ)
failing = right (now (err 3))

failing_step : poll_fut (converted_either (λ e. e) (λ e. 500) failing) ≡ (
  (poll_either (λ (e : ℕ). e) (λ e. 500) failing).0,
  converted_either
      (λ (e : ℕ). e)
      (λ (e : ℕ). 500)
      (poll_either (λ (e : ℕ). e) (λ e. 500) failing).1,
)
failing_step = poll_either-IsFuture (λ e. e) (λ e. 500) failing
