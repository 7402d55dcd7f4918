-- ===== src/Futures/Drive.antt =====
-- A caller that polls until it has a result, for any state with a poll, and what it means that such
-- a state is a future.
use actix_web.Prelude.{ℕ, zero, suc, ◌≤◌, ◌≡◌, refl, sym, ap, ◌∙◌, Result, ok, err, arith}
use actix_web.Futures.{Poll, ready, not_ready, error, panicked, Fut, poll_fut, of_result, after}

abbrev pub react {ℓ κ ν} :
    {S : Type ℓ} {A : Type κ} {E : Type ν} → Poll A E × S → (S → Poll A E) → Poll A E
react (ready a, s) again = ready a
react (not_ready, s) again = again s
react (error e, s) again = error e
react (panicked, s) again = panicked

-- At most `fuel` polls; `not_ready` is a fuel that ran out.
unfoldable pub drive {ℓ κ ν} :
    {S : Type ℓ} {A : Type κ} {E : Type ν} → (S → Poll A E × S) → ℕ → S → Poll A E
drive step zero s = not_ready
drive step (suc fuel) s = react (step s) (drive step fuel)

module _ {A E : Type 0} where
  -- A future that takes `m` polls has given its result by poll m + 1.
  pub drive-after :
      (n m : ℕ) (r : Result A E) → m ≤ n → drive poll_fut (suc n) (after m r) ≡ of_result r
  unfolding drive
  drive-after n zero (ok a) h = refl
  drive-after n zero (err e) h = refl
  drive-after zero (suc m) r h = absurd (omega arith)
  drive-after (suc n) (suc m) r h = drive-after n m r (omega arith)

module _ {S A E : Type 0} (step : S → Poll A E × S) (fut_of : S → Fut A E) where
  -- Each poll of the state gives what the poll of the future gives, and leaves the state of what
  -- it leaves.
  abbrev pub IsFuture : Type 0
  IsFuture = (s : S) → poll_fut (fut_of s) ≡ ((step s).0, fut_of (step s).1)

  react-fut :
      (n : ℕ) (p : Poll A E × S)
      → ((s : S) → drive step n s ≡ drive poll_fut n (fut_of s))
      → react p (drive step n) ≡ react (p.0, fut_of p.1) (drive poll_fut n)
  react-fut n (ready a, s) h = refl
  react-fut n (not_ready, s) h = h s
  react-fut n (error e, s) h = refl
  react-fut n (panicked, s) h = refl

  pub drive-fut : IsFuture → (n : ℕ) (s : S) → drive step n s ≡ drive poll_fut n (fut_of s)
  unfolding drive
  drive-fut h zero s = refl
  drive-fut h (suc n) s =
      react-fut n (step s) (drive-fut h n) ∙ ap (λ p. react p (drive poll_fut n)) (sym (h s))
