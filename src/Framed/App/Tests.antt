-- ===== src/Framed/App/Tests.antt =====
-- A framed application of two factories (src/framed_app.rs).
use text.Mathlib.Text.{◌==◌ as str_eq}
use actix_web.Prelude.{
  ℕ, zero, suc, ◌+◌, String, Option, none, some, List, [], ◌∷◌, ◌≡◌, refl, ok, err, arith,
  if◌then◌else◌,
}
use actix_web.Futures.{Fut, ready, after}
use actix_web.Futures.Direct.{direct}
use actix_web.Futures.Drive.{drive}
use actix_web.Http.{HttpRequest, HttpTypes}
use actix_web.App.{RouterTypes}
use actix_web.Framed.App.{FramedAppService, with_state, create_services, poll_framed, call_framed}
use actix_web.Framed.App.Answer.{Plan, register, call_framed-registered, call_framed-unknown}

abbrev types : HttpTypes
types = record { Response = ℕ; Error = ℕ; not_found = 404; from_error = λ e. e }

abbrev after_this : Option ℕ → Option ℕ
after_this none = none
after_this (some i) = some (suc i)

abbrev place_of : String → List String → Option ℕ
place_of path [] = none
place_of path (p ∷ ps) =
    let rest = after_this (place_of path ps) in if str_eq path p then some zero else rest

abbrev by_path : RouterTypes
by_path = record {
  ResourceDef = String;
  new_def = λ path. path;
  recognize = λ paths req. (place_of req.path paths, req);
}

-- Services that count the polls by the state 5; the second one fails.
abbrev plans : List (Plan ℕ ℕ ℕ ℕ)
plans =
    record { path = "/chat"; wait = 2; service = λ state r. after (state + 1) (ok tt) }
    ∷ record { path = "/feed"; wait = 0; service = λ state r. after state (err 7) }
    ∷ []

abbrev asking : String → HttpRequest
asking path = record {
  method = "GET";
  path = path;
  query = none;
  header = λ name. none;
  match_path = [];
}

abbrev sending : ℕ → ℕ → Fut ℕ ℕ
sending framed response = after framed (ok response)

call_framed-registered_example :
    (a : FramedAppService ℕ ℕ) × (drive poll_framed 3
        (create_services (register direct (with_state 5) plans))
      ≡ ready a)
    × (call_framed direct by_path types sending a (asking "/feed", 9) ≡ after 5 (err tt))
call_framed-registered_example =
    call_framed-registered direct by_path types sending 5 2 plans (asking "/feed") (asking "/feed")
      9 1 (record { path = "/feed"; wait = 0; service = λ state r. after state (err 7) }) 5 (err 7)
      (omega arith) refl refl refl

unknown_path_sent :
    (a : FramedAppService ℕ ℕ) × (drive poll_framed 3
        (create_services (register direct (with_state 5) plans))
      ≡ ready a)
    × (call_framed direct by_path types sending a (asking "/other", 9) ≡ after 9 (ok tt))
unknown_path_sent =
    call_framed-unknown direct by_path types sending 5 2 plans (asking "/other") (asking "/other") 9
      9 (ok 404) (omega arith) refl refl
