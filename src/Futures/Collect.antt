-- ===== src/Futures/Collect.antt =====
-- A state that is polled, as one future: what the polls of it give, put together.
use actix_web.Prelude.{ℕ, zero, suc, ◌≤◌, ◌≡◌, refl, ap, Result, ok, err, arith}
use actix_web.Futures.{
  Poll, ready, not_ready, error, panicked, Fut, later, now, spent, poll_fut, after,
}
use actix_web.Futures.Drive.{drive, react}

module _ {S A E : Type 0} where
  abbrev gather : Poll A E × S → (S → Fut A E) → Fut A E
  gather (ready a, s) again = now (ok a)
  gather (not_ready, s) again = later (again s)
  gather (error e, s) again = now (err e)
  gather (panicked, s) again = spent

  -- The future of at most `fuel` polls.
  unfoldable pub collect : (S → Poll A E × S) → ℕ → S → Fut A E
  collect step zero s = spent
  collect step (suc fuel) s = gather (step s) (collect step fuel)

-- How many polls find a future unfinished.
abbrev pub depth {ℓ κ} : {A : Type ℓ} {E : Type κ} → Fut A E → ℕ
depth (later f) = suc (depth f)
depth (now r) = 0
depth spent = 0

module _ {A E : Type 0} where
  -- That a poll gives this result.
  abbrev pub Gives : Result A E → Poll A E → Type 0
  Gives (ok a) (ready a') = a' ≡ a
  Gives (err e) (error e') = e' ≡ e
  Gives r p = ⊥

  pub ready-Gives : (a : A) (p : Poll A E) → p ≡ ready a → Gives (ok a) p
  ready-Gives a p h = rw h refl

  pub error-Gives : (e : E) (p : Poll A E) → p ≡ error e → Gives (err e) p
  error-Gives e p h = rw h refl

module _ {S A E : Type 0} (step : S → Poll A E × S) where
  gather-Gives :
      (n k : ℕ) (r : Result A E) (p : Poll A E × S)
      → n ≤ k
      → Gives r (react p (drive step n))
      → (m : ℕ) × (m ≤ n) × (gather p (collect step k) ≡ after m r)
  unfolding drive collect
  gather-Gives n k (ok a) (ready a', s) l h = (0, omega arith, ap (λ x. now (ok x)) h)
  gather-Gives n k (err e) (error e', s) l h = (0, omega arith, ap (λ x. now (err x)) h)
  gather-Gives n k (ok a) (error e, s) l h = absurd h
  gather-Gives n k (err e) (ready a, s) l h = absurd h
  gather-Gives n k (ok a) (panicked, s) l h = absurd h
  gather-Gives n k (err e) (panicked, s) l h = absurd h
  gather-Gives zero k (ok a) (not_ready, s) l h = absurd h
  gather-Gives zero k (err e) (not_ready, s) l h = absurd h
  gather-Gives (suc n) zero r (not_ready, s) l h = absurd (omega arith)
  gather-Gives (suc n) (suc k) r (not_ready, s) l h =
      let (m, lt, e) = gather-Gives n k r (step s) (omega arith) h in
      (suc m, omega arith, ap later e)

  -- A result that n + 1 polls of the state give is the result of the future, and comes no later.
  pub collect-Gives :
      (n k : ℕ) (r : Result A E) (s : S)
      → n ≤ k
      → Gives r (drive step (suc n) s)
      → (m : ℕ) × (m ≤ n) × (collect step (suc k) s ≡ after m r)
  unfolding drive collect
  collect-Gives n k r s l h = gather-Gives n k r (step s) l h

  drive-gather :
      (n : ℕ) (p : Poll A E × S)
      → ((s : S) → drive poll_fut n (collect step n s) ≡ drive step n s)
      → react (poll_fut (gather p (collect step n))) (drive poll_fut n) ≡ react p (drive step n)
  drive-gather n (ready a, s) h = refl
  drive-gather n (not_ready, s) h = h s
  drive-gather n (error e, s) h = refl
  drive-gather n (panicked, s) h = refl

  -- The future is polled as the state is, for as many polls as it is made of.
  pub drive-collect : (n : ℕ) (s : S) → drive poll_fut n (collect step n s) ≡ drive step n s
  unfolding drive collect
  drive-collect zero s = refl
  drive-collect (suc n) s = drive-gather n (step s) (drive-collect n)
