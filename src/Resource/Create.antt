-- ===== src/Resource/Create.antt =====
-- How the services of a resource (src/resource.rs) come to be: `CreateResourceService` polled
-- until it is done.
use actix_web.Prelude.{
  ℕ, zero, suc, ◌+◌, ◌≤◌, ◌<◌, Bool, true, false, ◌&&◌, Option, none, some, List, [], ◌∷◌, ◌≡◌, ◌∙◌,
  ap, refl, ok, All, arith, leb, Bool-cases, inl, inr,
}
use mathlib.Core.Path.{ap₂}
use actix_web.Futures.{Poll, Fut, ready, not_ready, error, panicked, spent, after}
use actix_web.Http.{HttpTypes}
use actix_web.Route.{Service}
use actix_web.Resource.{
  ResourceService, CreateResourceService, CreateRouteServiceItem, swept, create, poll_default, poll,
  after_items, finish,
}
use actix_web.Resource.Items.{
  Pending, built, all_at, all_by, resource, state, drain-at, poll_at, create_at,
}

module _ {H : HttpTypes} {P : Type 0} where
  abbrev pub react :
      Poll (ResourceService H P) (Unit {0}) × CreateResourceService H P
      → (CreateResourceService H P → Poll (ResourceService H P) (Unit {0}))
      → Poll (ResourceService H P) (Unit {0})
  react (not_ready, c) again = again c
  react (ready s, c) again = ready s
  react (error e, c) again = error e
  react (panicked, c) again = panicked

  -- A caller that polls until it has a result, at most `fuel` times; `not_ready` is a fuel that
  -- ran out.
  unfoldable pub drive : ℕ → CreateResourceService H P → Poll (ResourceService H P) (Unit {0})
  drive zero c = not_ready
  drive (suc fuel) c = react (poll c) (drive fuel)

module _ {H : HttpTypes} {P : Type 0} where
  drive_not_ready :
      (n : ℕ) (c c' : CreateResourceService H P)
      → poll c ≡ (not_ready, c')
      → drive (suc n) c ≡ drive n c'
  unfolding drive
  drive_not_ready n c c' e = ap (λ p. react p (drive n)) e

  finish_at :
      (t : ℕ) (ws : List (Pending H P))
      (dd' : Option (Service H P) × Option (Fut (Service H P) (Unit {0})))
      → all_by t ws ≡ true
      → after_items (state (all_at (suc t) ws) dd') (swept true)
        ≡ (ready (record { routes = built ws; default = dd'.0 }), state [] (none, dd'.1))
  finish_at t ws dd' h = ap (finish (state (all_at (suc t) ws) dd')) (drain-at t ws h)

  -- The last poll.
  drive_done :
      (n t : ℕ) (ws : List (Pending H P)) (c : CreateResourceService H P)
      (dd' : Option (Service H P) × Option (Fut (Service H P) (Unit {0})))
      → poll c ≡ after_items (state (all_at (suc t) ws) dd') (swept true)
      → all_by t ws ≡ true
      → drive (suc n) c ≡ ready (record { routes = built ws; default = dd'.0 })
  unfolding drive
  drive_done n t ws c dd' e h = ap (λ p. react p (drive n)) (e ∙ finish_at t ws dd' h)

  poll_plain :
      (t : ℕ) (ws : List (Pending H P)) (b : Bool)
      → all_by t ws ≡ b
      → poll (state (all_at t ws) (none, none))
        ≡ after_items (state (all_at (suc t) ws) (none, none)) (swept b)
  unfolding poll_default
  poll_plain t ws b h =
      poll_at t ws (none, none) (none, none) true refl
      ∙ ap (λ b. after_items (state (all_at (suc t) ws) (none, none)) (swept b)) h

  drive_plain :
      (n t k : ℕ) (ws : List (Pending H P))
      → t + n ≡ k
      → all_by k ws ≡ true
      → drive (suc n) (state (all_at t ws) (none, none))
        ≡ ready (record { routes = built ws; default = none })
  drive_plain zero t k ws e h =
      let e' : t ≡ k = omega arith in
      let done : all_by t ws ≡ true = rw e' h in
      drive_done zero t ws _ (none, none) (poll_plain t ws true done) done
  drive_plain (suc n) t k ws e h = elim (Bool-cases (all_by t ws)) [
    | inl done ↦ drive_done (suc n) t ws _ (none, none) (poll_plain t ws true done) done
    | inr more ↦
        drive_not_ready (suc n) _ _ (poll_plain t ws false more)
        ∙ drive_plain n (suc t) k ws (omega arith) h
  ]

  -- The default and its future, which takes `wait` polls, once it has been polled `t` times and
  -- at most once after the poll that found it ready.
  abbrev default_at :
      ℕ → ℕ → Service H P → Option (Service H P) × Option (Fut (Service H P) (Unit {0}))
  default_at zero wait d = (none, some (after wait (ok d)))
  default_at (suc t) zero d = (some d, some spent)
  default_at (suc t) (suc wait) d = default_at t wait d

  poll_default-at :
      (t wait : ℕ) (d : Service H P)
      → t ≤ wait
      → poll_default (default_at t wait d).0 (default_at t wait d).1
        ≡ (swept (leb wait t), (default_at (suc t) wait d).0, (default_at (suc t) wait d).1)
  unfolding poll_default
  poll_default-at zero zero d h = ground arith
  poll_default-at zero (suc wait) d h = ground arith
  poll_default-at (suc t) zero d h = absurd (omega arith)
  poll_default-at (suc t) (suc wait) d h = ground (arith, poll_default-at t wait d)

  default_end : (t : ℕ) (d : Service H P) → default_at (suc t) t d ≡ (some d, some spent)
  default_end zero d = refl
  default_end (suc t) d = default_end t d

  poll_waiting :
      (t wait : ℕ) (ws : List (Pending H P)) (d : Service H P)
      → t < wait
      → poll (state (all_at t ws) (default_at t wait d))
        ≡ (not_ready, state (all_at (suc t) ws) (default_at (suc t) wait d))
  poll_waiting t wait ws d h =
      let early : leb wait t ≡ false = ground arith in
      let le : t ≤ wait = omega arith in
      poll_at t ws (default_at t wait d) (default_at (suc t) wait d) (leb wait t)
        (poll_default-at t wait d le)
      ∙ ap
          (λ b.
            after_items (state (all_at (suc t) ws) (default_at (suc t) wait d))
              (swept (b && all_by t ws)))
          early

  poll_ready :
      (t : ℕ) (ws : List (Pending H P)) (d : Service H P) (b : Bool)
      → all_by t ws ≡ b
      → poll (state (all_at t ws) (default_at t t d))
        ≡ after_items (state (all_at (suc t) ws) (some d, some spent)) (swept b)
  poll_ready t ws d b h =
      let same : leb t t ≡ true = ground arith in
      let le : t ≤ t = omega arith in
      poll_at t ws (default_at t t d) (default_at (suc t) t d) (leb t t) (poll_default-at t t d le)
      ∙ ap₂ (λ dd b. after_items (state (all_at (suc t) ws) dd) (swept b)) (default_end t d)
          (ap₂ (λ a b. a && b) same h)

  drive_default :
      (n t wait : ℕ) (ws : List (Pending H P)) (d : Service H P)
      → t + n ≡ wait
      → all_by wait ws ≡ true
      → drive (suc n) (state (all_at t ws) (default_at t wait d))
        ≡ ready (record { routes = built ws; default = some d })
  drive_default zero t wait ws d e h =
      let e' : wait ≡ t = omega arith in
      rw e' (
        drive_done zero t ws _ (some d, some spent) (poll_ready t ws d true (rw e' at h))
          (rw e' at h))
  drive_default (suc n) t wait ws d e h =
      drive_not_ready (suc n) _ _ (poll_waiting t wait ws d (omega arith))
      ∙ drive_default n (suc t) wait ws d (omega arith) h

  -- The poll after the one that found the default ready.
  poll_again :
      (items : List (CreateRouteServiceItem H P)) (d : Service H P)
      → poll (state items (some d, some spent)) ≡ (panicked, state items (some d, some spent))
  unfolding poll poll_default
  poll_again items d = refl

  drive_panicked :
      (n : ℕ) (c : CreateResourceService H P) {c' : CreateResourceService H P}
      → poll c ≡ (panicked, c')
      → drive (suc n) c ≡ panicked
  unfolding drive
  drive_panicked n c e = ap (λ p. react p (drive n)) e

  drive_again :
      (n t wait : ℕ) (ws : List (Pending H P)) (d : Service H P)
      → t + n ≡ wait
      → all_by wait ws ≡ false
      → drive (suc (suc n)) (state (all_at t ws) (default_at t wait d)) ≡ panicked
  drive_again zero t wait ws d e h =
      let e' : wait ≡ t = omega arith in
      rw e' (
        drive_not_ready 1 _ _ (poll_ready t ws d false (rw e' at h))
        ∙ drive_panicked 0 _ (poll_again (all_at (suc t) ws) d))
  drive_again (suc n) t wait ws d e h =
      drive_not_ready (suc (suc n)) _ _ (poll_waiting t wait ws d (omega arith))
      ∙ drive_again n (suc t) wait ws d (omega arith) h

  -- No route takes more than `n` polls to create.
  abbrev pub AllWithin : ℕ → List (Pending H P) → Type 0
  AllWithin n ws = All (λ w. w.wait ≤ n) ws

  AllWithin-all_by : (n : ℕ) (ws : List (Pending H P)) → AllWithin n ws → all_by n ws ≡ true
  AllWithin-all_by n [] h = refl
  AllWithin-all_by n (w ∷ ws) (p, h) = ground (arith, AllWithin-all_by n ws h)

  all_by-false : (n : ℕ) (ws : List (Pending H P)) → ¬ AllWithin n ws → all_by n ws ≡ false
  all_by-false n [] h = absurd (h tt)
  all_by-false n (w ∷ ws) h = elim (Bool-cases (leb w.wait n)) [
    | inr slow ↦ rw slow refl
    | inl quick ↦ rw quick (all_by-false n ws (λ k. h (ground arith, k)))
  ]

-- A resource with no default, whose routes take at most n polls each to create, is created after
-- n + 1 polls, with all its routes in their order and no default.
pub drive-create_plain :
    {H : HttpTypes} {P : Type 0} (n : ℕ) (ws : List (Pending H P))
    → AllWithin n ws
    → drive (suc n) (create (resource ws none))
      ≡ ready (record { routes = built ws; default = none })
drive-create_plain n ws h =
    ap (drive (suc n)) (create_at ws none)
    ∙ drive_plain n zero n ws (omega arith) (AllWithin-all_by n ws h)

-- With a default that takes n polls, no fewer than any route, the resource is created by poll
-- n + 1, with all its routes in their order and the default.
pub drive-create_default :
    {H : HttpTypes} {P : Type 0} (n : ℕ) (ws : List (Pending H P)) (d : Service H P)
    → AllWithin n ws
    → drive (suc n) (create (resource ws (some (after n (ok d)))))
      ≡ ready (record { routes = built ws; default = some d })
drive-create_default n ws d h =
    ap (drive (suc n)) (create_at ws (some (after n (ok d))))
    ∙ drive_default n zero n ws d (omega arith) (AllWithin-all_by n ws h)

-- With a default that is ready before one of the routes, at poll n + 1, the next poll polls the
-- default's future again, although it has finished, and panics.
pub drive-create_panics :
    {H : HttpTypes} {P : Type 0} (n : ℕ) (ws : List (Pending H P)) (d : Service H P)
    → ¬ AllWithin n ws
    → drive (suc (suc n)) (create (resource ws (some (after n (ok d))))) ≡ panicked
drive-create_panics n ws d h =
    ap (drive (suc (suc n))) (create_at ws (some (after n (ok d))))
    ∙ drive_again n zero n ws d (omega arith) (all_by-false n ws h)
