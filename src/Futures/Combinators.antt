-- ===== src/Futures/Combinators.antt =====
-- The combinators of the crate `futures` that the program uses, by what the documentation of
-- `Future::then` says: the closure is called with the result once the future is done, and what it
-- returns is polled from there on.
use actix_web.Prelude.{ℕ, zero, suc, ◌+◌, ◌≡◌, refl, ap, ◌∙◌, Result, ok, err, arith}
use actix_web.Futures.{Fut, later, now, spent, after}

pub record Combinators : Type 1 where
  -- `Future::then`
  pub chain : (A B E F : Type 0) → Fut A E → (Result A E → Fut B F) → Fut B F
  pub chain-later :
      (A B E F : Type 0) (f : Fut A E) (k : Result A E → Fut B F)
      → chain A B E F (later f) k ≡ later (chain A B E F f k)
  pub chain-now :
      (A B E F : Type 0) (r : Result A E) (k : Result A E → Fut B F) → chain A B E F (now r) k ≡ k r

-- A future that is found unfinished `n` times more.
abbrev pub delay {ℓ κ} : {A : Type ℓ} {E : Type κ} → ℕ → Fut A E → Fut A E
delay zero f = f
delay (suc n) f = later (delay n f)

pub delay-after {ℓ κ} :
    {A : Type ℓ} {E : Type κ} (m n : ℕ) (r : Result A E) → delay m (after n r) ≡ after (m + n) r
delay-after zero n r = let e : 0 + n ≡ n = omega arith in rw e
delay-after (suc m) n r =
    let e : suc m + n ≡ suc (m + n) = omega arith in rw e (ap later (delay-after m n r))

abbrev pub if_ok : {A B E : Type 0} → (A → Fut B E) → Result A E → Fut B E
if_ok k (ok a) = k a
if_ok k (err e) = now (err e)

abbrev pub mapped : {A B E : Type 0} → (A → B) → Result A E → Fut B E
mapped f (ok a) = now (ok (f a))
mapped f (err e) = now (err e)

abbrev pub err_mapped : {A E F : Type 0} → (E → F) → Result A E → Fut A F
err_mapped f (ok a) = now (ok a)
err_mapped f (err e) = now (err (f e))

abbrev pub or_panic : {A E F : Type 0} → Result A E → Fut A F
or_panic (ok a) = now (ok a)
or_panic (err e) = spent

module _ (C : Combinators) where
  -- `Future::and_then`
  abbrev pub and_then : {A B E : Type 0} → Fut A E → (A → Fut B E) → Fut B E
  and_then {A} {B} {E} f k = C.chain A B E E f (if_ok k)

  -- `Future::map` and `Future::map_err`
  abbrev pub map_item : {A B E : Type 0} → Fut A E → (A → B) → Fut B E
  map_item {A} {B} {E} f g = C.chain A B E E f (mapped g)

  abbrev pub map_err : {A E F : Type 0} → Fut A E → (E → F) → Fut A F
  map_err {A} {E} {F} f g = C.chain A A E F f (err_mapped g)

  -- `map_err(|_| panic!())`
  abbrev pub expect_ok : {A E F : Type 0} → Fut A E → Fut A F
  expect_ok {A} {E} {F} f = C.chain A A E F f or_panic

  pub chain-after :
      {A B E F : Type 0} (n : ℕ) (r : Result A E) (k : Result A E → Fut B F)
      → C.chain A B E F (after n r) k ≡ delay n (k r)
  chain-after {A} {B} {E} {F} zero r k = C.chain-now A B E F r k
  chain-after {A} {B} {E} {F} (suc n) r k =
      C.chain-later A B E F (after n r) k ∙ ap later (chain-after n r k)

pub delay-now {ℓ κ} :
    {A : Type ℓ} {E : Type κ} (m : ℕ) (r : Result A E) → delay m (now r) ≡ after m r
delay-now zero r = refl
delay-now (suc m) r = ap later (delay-now m r)

-- A future of services, as one of the function that their `call` is.
abbrev pub called : {A B E : Type 0} → (A → B) → Fut A E → Fut B E
called f (later g) = later (called f g)
called f (now (ok a)) = now (ok (f a))
called f (now (err e)) = now (err e)
called f spent = spent

pub called-after :
    {A B E : Type 0} (f : A → B) (n : ℕ) (a : A)
    → called {E = E} f (after n (ok a)) ≡ after n (ok (f a))
called-after f zero a = refl
called-after f (suc n) a = ap later (called-after f n a)
