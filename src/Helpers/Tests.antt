-- ===== src/Helpers/Tests.antt =====
-- A boxed service that fails on an empty list (src/helpers.rs).
use actix_web.Prelude.{ℕ, ◌≡◌, refl, Result, ok, err, List, [], ◌∷◌, length}
use actix_web.Futures.{Fut, after}
use actix_web.Futures.Direct.{direct}
use actix_web.Helpers.{http_new_service, http_new_service-after, forget}

abbrev head_of : List ℕ → Result ℕ ℕ
head_of [] = err 7
head_of (x ∷ xs) = ok x

abbrev first : List ℕ → Fut ℕ ℕ
first xs = after (length xs) (head_of xs)

first_boxed :
    (boxed : List ℕ → Fut ℕ (Unit {0})) × (http_new_service direct {I = ℕ} (after 2 (ok first))
      ≡ after 2 (ok boxed))
    × ((xs : List ℕ) → boxed xs ≡ after (length xs) (forget (head_of xs)))
first_boxed = http_new_service-after direct {I = ℕ} 2 first length head_of (λ xs. refl)
