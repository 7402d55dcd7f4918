-- ===== src/Extractor/Tests.antt =====
-- A tuple of three parts (src/extractor.rs).
use actix_web.Prelude.{ℕ, ◌≡◌, none, some, List, [], ◌∷◌, ok, err, arith}
use actix_web.Futures.{Poll, later, now, spent, ready, error}
use actix_web.Futures.Drive.{drive}
use actix_web.Extractor.{Slot, tuple, poll}
use actix_web.Extractor.Parts.{futures}
use actix_web.Extractor.Tuple.{given, drive-given, drive-failed}
use actix_web.Extractor.Alive.{poll-Kept, Kept}

-- The extraction of numbers, with numbers as errors.
abbrev polls : ℕ → List (Slot ℕ ℕ) → Poll (List ℕ) ℕ
polls n slots = drive (poll {F = ℕ} (λ e. e)) n slots

three_given :
    polls 4 (tuple (futures (given ((3, 10) ∷ (0, 20) ∷ (1, 30) ∷ [])))) ≡ ready (10 ∷ 20 ∷ 30 ∷ [])
three_given = drive-given (λ e. e) 3 ((3, 10) ∷ (0, 20) ∷ (1, 30) ∷ []) (omega arith)

first_failure :
    polls 3 (tuple (futures ((5, ok 10) ∷ (2, err 400) ∷ (2, err 404) ∷ []))) ≡ error 400
first_failure =
    drive-failed (λ e. e) 2 ((5, ok 10) ∷ []) 400 ((2, err 404) ∷ []) tt (omega arith, tt)

abbrev half : List (Slot ℕ ℕ)
half =
    record { item = some 10; fut = spent } ∷ record { item = none; fut = later (now (ok 20)) } ∷ []

poll-Kept_example : Kept (poll (λ e. e) half)
poll-Kept_example = poll-Kept (λ e. e) half (tt, (tt, tt))
