-- ===== src/State/Start.antt =====
-- How an application comes by its states (src/app.rs, src/state.rs): `AppStateFactoryResult` polled
-- until it is done.
use actix_web.Prelude.{ℕ, zero, suc, true, some, List, [], ◌∷◌, ◌≡◌, refl, ok, err, none, inl, inr}
use actix_web.Futures.{Poll, ready, not_ready, error, panicked}
use actix_web.State.{
  ExtensionTypes, StateFactoryResult, AppStateFactoryResult, Pass, passed, failed, panic,
  poll_states, after_states, poll, from_request, not_configured,
}
use actix_web.State.Round.{OneIs, ComesIn, Round, ComesIn-Round}

module _ (X : ExtensionTypes) where
  abbrev pub react :
      Poll X.Extensions (Unit {0}) × AppStateFactoryResult X
      → (AppStateFactoryResult X → Poll X.Extensions (Unit {0}))
      → Poll X.Extensions (Unit {0})
  react (not_ready, c) again = again c
  react (ready e, c) again = ready e
  react (error x, c) again = error x
  react (panicked, c) again = panicked

  -- A caller that polls until it has a result, at most `fuel` times; `not_ready` is a fuel that
  -- ran out.
  unfoldable pub drive : ℕ → AppStateFactoryResult X → Poll X.Extensions (Unit {0})
  drive zero c = not_ready
  drive (suc fuel) c = react (poll X c) (drive fuel)

  -- What the application is started with has the value.
  abbrev pub Configured : X.State → Poll X.Extensions (Unit {0}) → Type 0
  Configured v (ready e) = from_request X e (X.type_of v) ≡ ok v
  Configured v not_ready = ⊥
  Configured v (error x) = ⊥
  Configured v panicked = ⊥

  abbrev pub loading : List (StateFactoryResult X) → X.Extensions → AppStateFactoryResult X
  loading states e = record { state = states; extensions = e; is_unique = true }

  pub found_configured :
      (v : X.State) (e : X.Extensions)
      → X.get e (X.type_of v) ≡ some v
      → from_request X e (X.type_of v) ≡ ok v
  unfolding from_request
  found_configured v e h = rw (from_request, h) refl

  pub absent_configured :
      (t : X.TypeId) (e : X.Extensions) → X.get e t ≡ none → from_request X e t ≡ err not_configured
  unfolding from_request
  absent_configured t e h = rw (from_request, h) refl

  Round-Configured :
      (n : ℕ) (v : X.State) (states : List (StateFactoryResult X)) (e : X.Extensions)
      (r : Pass × List (StateFactoryResult X) × X.Extensions)
      → Round X n v r
      → ((s : StateFactoryResult X) (states' : List (StateFactoryResult X)) (e' : X.Extensions)
          → ComesIn X n v (s ∷ states') e'
          → Configured v (drive n (loading (s ∷ states') e')))
      → Configured v (react (after_states X (loading states e) r) (drive n))
  Round-Configured n v states e (passed, [], e') (inl (h, k)) again = found_configured v e' k
  Round-Configured n v states e (passed, [], e') (inr h) again = absurd h
  Round-Configured n v states e (passed, s ∷ states', e') h again = again s states' e' h
  Round-Configured n v states e (failed, states', e') h again = absurd h
  Round-Configured n v states e (panic, states', e') h again = absurd h

  drive-Configured :
      (n : ℕ) (v : X.State) (states : List (StateFactoryResult X)) (e : X.Extensions)
      → ComesIn X (suc n) v states e
      → Configured v (drive (suc n) (loading states e))
  unfolding poll drive
  drive-Configured zero v states e h =
      Round-Configured zero v states e (poll_states X states e) (ComesIn-Round X zero v states e h)
        none_left
    where
      none_left :
          (s : StateFactoryResult X) (states' : List (StateFactoryResult X)) (e' : X.Extensions)
          → ComesIn X zero v (s ∷ states') e'
          → ⊥
      none_left s states' e' (inl (k, l)) = k.0
      none_left s states' e' (inr (inl k)) = k.0
      none_left s states' e' (inr (inr k)) = k.0
  drive-Configured (suc n) v states e h =
      Round-Configured (suc n) v states e (poll_states X states e)
        (ComesIn-Round X (suc n) v states e h)
        (λ s states' e' k. drive-Configured n v (s ∷ states') e' k)

-- An application of which one state is the only one of its type, and whose states, this one and the
-- others, each come within n + 1 polls, is started, the first time, within n + 1 polls; this state is
-- then found by its type, whenever it came and whatever states of other types come before it or after
-- it.
pub drive-OneIs :
    (X : ExtensionTypes) (n : ℕ) (v : X.State) (states : List (StateFactoryResult X))
    (e : X.Extensions)
    → OneIs X (suc n) v states
    → Configured X v (drive X (suc n) (loading X states e))
drive-OneIs X n v states e h = drive-Configured X n v states e (inr h)
