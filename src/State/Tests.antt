-- ===== src/State/Tests.antt =====
-- States of an application (src/state.rs): some that take two polls, and some that are registered
-- one after the other.
use actix_web.Prelude.{
  ℕ, ◌==◌, ◌≡◌, refl, none, some, List, [], ◌∷◌, ok, err, inl, inr, Option, if◌then◌else◌, arith,
  ◌≢◌,
}
use actix_web.Prelude.Text.{codes}
use actix_web.Futures.{after}
use actix_web.Http.{ServiceRequest, absent}
use actix_web.State.{
  ExtensionTypes, StateFactoryResult, state_fut, state_factory_fut, not_configured,
}
use actix_web.State.Registered.{Call, of_state, of_factory, Finds, configure-last, configure-absent}
use actix_web.State.Start.{drive, drive-OneIs, Configured, loading}

abbrev pub insert : (ℕ → Option (ℕ × ℕ)) → ℕ × ℕ → ℕ → Option (ℕ × ℕ)
insert e s t = if t == s.0 then some s else e t

pub get-insert : (e : ℕ → Option (ℕ × ℕ)) (s : ℕ × ℕ) → insert e s s.0 ≡ some s
get-insert e s = ground arith

pub get-insert-ne : (e : ℕ → Option (ℕ × ℕ)) (s : ℕ × ℕ) (t : ℕ) → s.0 ≢ t → insert e s t ≡ e t
get-insert-ne e s t h = ground arith

-- A type map of numbers, each with the number of its type.
abbrev pub small : ExtensionTypes
small = record {
  TypeId = ℕ;
  State = ℕ × ℕ;
  type_of = λ s. s.0;
  Extensions = ℕ → Option (ℕ × ℕ);
  insert = insert;
  get = λ e t. e t;
  get-insert = get-insert;
  get-insert-ne = get-insert-ne;
}

abbrev states : List (StateFactoryResult small)
states = state_fut (1, 10) ∷ state_factory_fut (after 2 (ok (2, 20))) ∷ state_fut (3, 30) ∷ []

abbrev pub none_set : ℕ → Option (ℕ × ℕ)
none_set t = none

drive-OneIs_example : Configured small (2, 20) (drive small 3 (loading small states none_set))
drive-OneIs_example =
    drive-OneIs small 2 (2, 20) states none_set (inr (omega arith, inl (refl, (omega arith, tt))))

-- A state that is set again behind a factory, a function of type 9 that returns a state of type 5.
abbrev pub get : ServiceRequest ℕ
get = record {
  req = record { method = "GET"; path = "/"; query = none; header = λ name. none; match_path = [] };
  payload = absent;
}

abbrev pub calls : List (Call small)
calls = of_state (2, 10) ∷ of_factory (9, 0) (after 1 (ok (5, 50))) ∷ of_state (2, 20) ∷ []

closure_found : Finds small calls none_set codes get 9 (ok (9, 0))
closure_found =
    configure-last small (of_state (2, 10) ∷ []) (of_factory (9, 0) (after 1 (ok (5, 50))))
      (of_state (2, 20) ∷ []) none_set codes get (omega arith, tt)

configure-absent_example : Finds small calls none_set codes get 5 (err not_configured)
configure-absent_example =
    configure-absent small calls none_set codes get 5
      (omega arith, (omega arith, (omega arith, tt))) refl
