-- ===== src/Framed/App/Create.antt =====
-- How the services of a framed application (src/framed_app.rs) come to be.
use actix_web.Prelude.{ℕ, suc, ◌≤◌, String, some, List, [], ◌∷◌, map, ◌≡◌, refl, ap, ◌∙◌, ok, All}
use actix_web.Futures.{ready, after}
use actix_web.Futures.Drive.{drive}
use actix_web.Extractor.{tuple}
use actix_web.Extractor.Parts.{futures}
use actix_web.Extractor.Tuple.{given, values, drive-given}
use actix_web.Framed.App.{Service, future, FramedApp, create_services, poll_framed}
use actix_web.Framed.App.Loop.{zip, same, items_of, Aligned, result_of, drive-slots}

-- The services of a framed application, each with the polls that its creation takes.
abbrev pub Planned : Type 0 → Type 0 → Type 0
Planned S F = List (String × ℕ × Service S F)

module _ {S F : Type 0} where
  abbrev pub planned : S → Planned S F → FramedApp S F
  planned state es = record { services = map (λ e. (e.0, after e.1 (ok e.2))) es; state = state }

  abbrev paths_of : Planned S F → List String
  paths_of es = map (λ e. e.0) es

  abbrev waits_of : Planned S F → List (ℕ × Service S F)
  waits_of es = map (λ e. (e.1, e.2)) es

  planned-items :
      (state : S) (es : Planned S F)
      → (create_services (planned state es)).fut
        ≡ items_of (paths_of es) (tuple (futures (given (waits_of es))))
  planned-items state [] = refl
  planned-items state (e ∷ es) =
      ap (λ items. future (some e.0) (after e.1 (ok e.2)) ∷ items) (planned-items state es)

  planned-Aligned :
      (es : Planned S F)
      → Aligned
          (paths_of es)
          (tuple (futures {V = Service S F} {E = Unit {0}} (given (waits_of es))))
  planned-Aligned [] = tt
  planned-Aligned (e ∷ es) = planned-Aligned es

  zip-planned :
      (es : Planned S F) → zip (paths_of es) (values (waits_of es)) ≡ map (λ e. (e.0, e.2)) es
  zip-planned [] = refl
  zip-planned (e ∷ es) = ap (λ xs. (e.0, e.2) ∷ xs) (zip-planned es)

  All-waits : (n : ℕ) (es : Planned S F) → All (λ e. e.1 ≤ n) es → All (λ v. v.0 ≤ n) (waits_of es)
  All-waits n [] h = tt
  All-waits n (e ∷ es) (h, k) = (h, All-waits n es k)

-- A framed application whose services are each created within n + 1 polls is created within n + 1
-- polls, with its state and with all its services behind their paths, in the order in which they
-- were registered.
pub drive-planned :
    {S F : Type 0} (n : ℕ) (state : S) (es : Planned S F)
    → All (λ e. e.1 ≤ n) es
    → drive poll_framed (suc n) (create_services (planned state es))
      ≡ ready (record { router = map (λ e. (e.0, e.2)) es; state = state })
drive-planned n state es h =
    ap (λ items. drive poll_framed (suc n) (record { fut = items; state = state }))
      (planned-items state es)
    ∙ drive-slots (suc n) state (paths_of es) _ (planned-Aligned es)
    ∙ ap (result_of state (paths_of es))
        (drive-given {E = Unit {0}} same n (waits_of es) (All-waits n es h))
    ∙ ap (λ router. ready (record { router = router; state = state })) (zip-planned es)
