-- ===== src/Futures.antt =====
-- The futures that the program polls (the `futures` crate, version 0.1). What a future waits for
-- lies outside the program, so a future is the number of polls that find it unfinished, then its
-- result. A combinator such as `AndThen` panics when it is polled again after that.
pub mod Collect
pub mod Combinators
pub mod Direct
pub mod Drive
use actix_web.Prelude.{ℕ, zero, suc, Result, ok, err}

-- What `poll` gives: `Ok(Async::Ready(a))`, `Ok(Async::NotReady)`, `Err(e)`, or a panic.
pub data Poll {ℓ κ} (A : Type ℓ) (E : Type κ) : Type (ℓ ⊔ κ) where
  ready : A → Poll A E
  not_ready : Poll A E
  error : E → Poll A E
  panicked : Poll A E

pub data Fut {ℓ κ} (A : Type ℓ) (E : Type κ) : Type (ℓ ⊔ κ) where
  later : Fut A E → Fut A E
  now : Result A E → Fut A E
  spent : Fut A E

module _ {ℓ κ} {A : Type ℓ} {E : Type κ} where
  abbrev pub of_result : Result A E → Poll A E
  of_result (ok a) = ready a
  of_result (err e) = error e

  abbrev pub poll_fut : Fut A E → Poll A E × Fut A E
  poll_fut (later f) = (not_ready, f)
  poll_fut (now r) = (of_result r, spent)
  poll_fut spent = (panicked, spent)

  -- A future that is found unfinished `n` times.
  abbrev pub after : ℕ → Result A E → Fut A E
  after zero r = now r
  after (suc n) r = later (after n r)

-- The polls of two futures that are polled together until both are done.
abbrev pub longest : ℕ → ℕ → ℕ
longest zero n = n
longest (suc m) zero = suc m
longest (suc m) (suc n) = suc (longest m n)
