-- ===== src/State/Round.antt =====
-- One round of `AppStateFactoryResult::poll` (src/app.rs) over the states.
use mathlib.Core.Path.{subst}
use actix_web.Prelude.{
  ℕ, zero, suc, some, List, [], ◌∷◌, ◌≡◌, ◌≢◌, ◌∙◌, ap, refl, ok, err, ◌⊎◌, inl, inr,
}
use actix_web.Futures.{Poll, Fut, ready, not_ready, error, panicked, later, now, spent}
use actix_web.State.{
  ExtensionTypes, StateFactoryResult, state_fut, state_factory_fut, Pass, passed, failed, panic,
  poll_result, stay, after_state, poll_states,
}

module _ (X : ExtensionTypes) where
  -- The future gives a value with this property within `n` polls.
  abbrev FutWithin : ℕ → (X.State → Type 0) → Fut X.State (Unit {0}) → Type 0
  FutWithin zero Q fut = ⊥
  FutWithin (suc n) Q (now (ok v)) = Q v
  FutWithin (suc n) Q (later fut) = FutWithin n Q fut
  FutWithin (suc n) Q (now (err x)) = ⊥
  FutWithin (suc n) Q spent = ⊥

  abbrev pub StateWithin : ℕ → (X.State → Type 0) → StateFactoryResult X → Type 0
  StateWithin zero Q s = ⊥
  StateWithin (suc n) Q (state_fut v) = Q v
  StateWithin (suc n) Q (state_factory_fut fut) = FutWithin (suc n) Q fut

  -- All these states come within `n` polls and are of other types than `t`.
  abbrev pub Others : ℕ → X.TypeId → List (StateFactoryResult X) → Type 0
  Others n t [] = Unit
  Others n t (s ∷ states) = StateWithin n (λ u. X.type_of u ≢ t) s × Others n t states

  -- One of these states is `v`, the others are of other types, and all come within `n` polls.
  abbrev pub OneIs : ℕ → X.State → List (StateFactoryResult X) → Type 0
  OneIs n v [] = ⊥
  OneIs n v (s ∷ states) =
      (StateWithin n (λ u. u ≡ v) s × Others n (X.type_of v) states)
      ⊎ (StateWithin n (λ u. X.type_of u ≢ X.type_of v) s × OneIs n v states)

  -- The value is in the extensions, or it is still to come.
  abbrev pub ComesIn : ℕ → X.State → List (StateFactoryResult X) → X.Extensions → Type 0
  ComesIn n v states e =
      (Others n (X.type_of v) states × (X.get e (X.type_of v) ≡ some v)) ⊎ OneIs n v states

  -- What the poll of a state leaves.
  abbrev LeftOther :
      ℕ
      → X.State
      → X.Extensions
      → Poll (Unit {0}) (Unit {0}) × StateFactoryResult X × X.Extensions
      → Type 0
  LeftOther n v e (ready x, s, e') = X.get e' (X.type_of v) ≡ X.get e (X.type_of v)
  LeftOther n v e (not_ready, s, e') = StateWithin n (λ u. X.type_of u ≢ X.type_of v) s × (e' ≡ e)
  LeftOther n v e (error x, s, e') = ⊥
  LeftOther n v e (panicked, s, e') = ⊥

  abbrev LeftIs :
      ℕ
      → X.State
      → X.Extensions
      → Poll (Unit {0}) (Unit {0}) × StateFactoryResult X × X.Extensions
      → Type 0
  LeftIs n v e (ready x, s, e') = X.get e' (X.type_of v) ≡ some v
  LeftIs n v e (not_ready, s, e') = StateWithin n (λ u. u ≡ v) s × (e' ≡ e)
  LeftIs n v e (error x, s, e') = ⊥
  LeftIs n v e (panicked, s, e') = ⊥

  keep-StateWithin :
      (n : ℕ) (Q : X.State → Type 0) (fut : Fut X.State (Unit {0}))
      → FutWithin n Q fut
      → StateWithin n Q (state_factory_fut fut)
  keep-StateWithin zero Q fut h = h
  keep-StateWithin (suc n) Q fut h = h

  poll_result-LeftOther :
      (n : ℕ) (v : X.State) (e : X.Extensions) (s : StateFactoryResult X)
      → StateWithin (suc n) (λ u. X.type_of u ≢ X.type_of v) s
      → LeftOther n v e (poll_result X s e)
  unfolding poll_result
  poll_result-LeftOther n v e (state_fut u) h = X.get-insert-ne e u (X.type_of v) h
  poll_result-LeftOther n v e (state_factory_fut (now (ok u))) h =
      X.get-insert-ne e u (X.type_of v) h
  poll_result-LeftOther n v e (state_factory_fut (now (err x))) h = absurd h
  poll_result-LeftOther n v e (state_factory_fut (later fut)) h = (keep-StateWithin n _ fut h, refl)
  poll_result-LeftOther n v e (state_factory_fut spent) h = absurd h

  inserted :
      (e : X.Extensions) (u v : X.State) → u ≡ v → X.get (X.insert e u) (X.type_of v) ≡ some v
  inserted e u v h = subst (λ w. X.get (X.insert e u) (X.type_of w) ≡ some w) h (X.get-insert e u)

  poll_result-LeftIs :
      (n : ℕ) (v : X.State) (e : X.Extensions) (s : StateFactoryResult X)
      → StateWithin (suc n) (λ u. u ≡ v) s
      → LeftIs n v e (poll_result X s e)
  unfolding poll_result
  poll_result-LeftIs n v e (state_fut u) h = inserted e u v h
  poll_result-LeftIs n v e (state_factory_fut (now (ok u))) h = inserted e u v h
  poll_result-LeftIs n v e (state_factory_fut (now (err x))) h = absurd h
  poll_result-LeftIs n v e (state_factory_fut (later fut)) h = (keep-StateWithin n _ fut h, refl)
  poll_result-LeftIs n v e (state_factory_fut spent) h = absurd h

  -- What a round over states leaves.
  abbrev OthersLeft :
      ℕ → X.State → X.Extensions → Pass × List (StateFactoryResult X) × X.Extensions → Type 0
  OthersLeft n v e (passed, states, e') =
      Others n (X.type_of v) states × (X.get e' (X.type_of v) ≡ X.get e (X.type_of v))
  OthersLeft n v e (failed, states, e') = ⊥
  OthersLeft n v e (panic, states, e') = ⊥

  abbrev pub Round : ℕ → X.State → Pass × List (StateFactoryResult X) × X.Extensions → Type 0
  Round n v (passed, states, e) = ComesIn n v states e
  Round n v (failed, states, e) = ⊥
  Round n v (panic, states, e) = ⊥

  stay-OthersLeft :
      (n : ℕ) (v : X.State) (e : X.Extensions) (s : StateFactoryResult X)
      (r : Pass × List (StateFactoryResult X) × X.Extensions)
      → StateWithin n (λ u. X.type_of u ≢ X.type_of v) s
      → OthersLeft n v e r
      → OthersLeft n v e (stay X s r)
  stay-OthersLeft n v e s (passed, states, e') h (k, l) = ((h, k), l)
  stay-OthersLeft n v e s (failed, states, e') h k = absurd k
  stay-OthersLeft n v e s (panic, states, e') h k = absurd k

  -- `OthersLeft` by what is found in the extensions.
  OthersLeft-get :
      (n : ℕ) (v : X.State) (e e' : X.Extensions)
      (r : Pass × List (StateFactoryResult X) × X.Extensions)
      → X.get e' (X.type_of v) ≡ X.get e (X.type_of v)
      → OthersLeft n v e' r
      → OthersLeft n v e r
  OthersLeft-get n v e e' (passed, states, e'') h (k, l) = (k, l ∙ h)
  OthersLeft-get n v e e' (failed, states, e'') h k = absurd k
  OthersLeft-get n v e e' (panic, states, e'') h k = absurd k

  after_state-OthersLeft :
      (n : ℕ) (v : X.State) (e : X.Extensions)
      (p : Poll (Unit {0}) (Unit {0}) × StateFactoryResult X × X.Extensions)
      (states : List (StateFactoryResult X))
      (again : X.Extensions → Pass × List (StateFactoryResult X) × X.Extensions)
      → LeftOther n v e p
      → ((e' : X.Extensions) → OthersLeft n v e' (again e'))
      → OthersLeft n v e (after_state X p states again)
  after_state-OthersLeft n v e (ready x, s, e') states again h k =
      OthersLeft-get n v e e' (again e') h (k e')
  after_state-OthersLeft n v e (not_ready, s, e') states again (h, l) k =
      stay-OthersLeft n v e s (again e') h
        (OthersLeft-get n v e e' (again e') (ap (λ x. X.get x (X.type_of v)) l) (k e'))
  after_state-OthersLeft n v e (error x, s, e') states again h k = absurd h
  after_state-OthersLeft n v e (panicked, s, e') states again h k = absurd h

  poll_states-OthersLeft :
      (n : ℕ) (v : X.State) (states : List (StateFactoryResult X)) (e : X.Extensions)
      → Others (suc n) (X.type_of v) states
      → OthersLeft n v e (poll_states X states e)
  unfolding poll_states
  poll_states-OthersLeft n v [] e h = (tt, refl)
  poll_states-OthersLeft n v (s ∷ states) e (h, k) =
      after_state-OthersLeft n v e (poll_result X s e) states (poll_states X states)
        (poll_result-LeftOther n v e s h) (λ e'. poll_states-OthersLeft n v states e' k)

  -- A round behind the value.
  OthersLeft-Round :
      (n : ℕ) (v : X.State) (e : X.Extensions)
      (r : Pass × List (StateFactoryResult X) × X.Extensions)
      → X.get e (X.type_of v) ≡ some v
      → OthersLeft n v e r
      → Round n v r
  OthersLeft-Round n v e (passed, states, e') h (k, l) = inl (k, l ∙ h)
  OthersLeft-Round n v e (failed, states, e') h k = absurd k
  OthersLeft-Round n v e (panic, states, e') h k = absurd k

  stay_is-Round :
      (n : ℕ) (v : X.State) (e : X.Extensions) (s : StateFactoryResult X)
      (r : Pass × List (StateFactoryResult X) × X.Extensions)
      → StateWithin n (λ u. u ≡ v) s
      → OthersLeft n v e r
      → Round n v (stay X s r)
  stay_is-Round n v e s (passed, states, e') h (k, l) = inr (inl (h, k))
  stay_is-Round n v e s (failed, states, e') h k = absurd k
  stay_is-Round n v e s (panic, states, e') h k = absurd k

  stay_other-Round :
      (n : ℕ) (v : X.State) (s : StateFactoryResult X)
      (r : Pass × List (StateFactoryResult X) × X.Extensions)
      → StateWithin n (λ u. X.type_of u ≢ X.type_of v) s
      → Round n v r
      → Round n v (stay X s r)
  stay_other-Round n v s (passed, states, e) h (inl (k, l)) = inl ((h, k), l)
  stay_other-Round n v s (passed, states, e) h (inr k) = inr (inr (h, k))
  stay_other-Round n v s (failed, states, e) h k = absurd k
  stay_other-Round n v s (panic, states, e) h k = absurd k

  after_is-Round :
      (n : ℕ) (v : X.State) (e : X.Extensions)
      (p : Poll (Unit {0}) (Unit {0}) × StateFactoryResult X × X.Extensions)
      (states : List (StateFactoryResult X))
      (again : X.Extensions → Pass × List (StateFactoryResult X) × X.Extensions)
      → LeftIs n v e p
      → ((e' : X.Extensions) → OthersLeft n v e' (again e'))
      → Round n v (after_state X p states again)
  after_is-Round n v e (ready x, s, e') states again h k =
      OthersLeft-Round n v e' (again e') h (k e')
  after_is-Round n v e (not_ready, s, e') states again (h, l) k =
      stay_is-Round n v e' s (again e') h (k e')
  after_is-Round n v e (error x, s, e') states again h k = absurd h
  after_is-Round n v e (panicked, s, e') states again h k = absurd h

  after_other-Round :
      (n : ℕ) (v : X.State) (e : X.Extensions)
      (p : Poll (Unit {0}) (Unit {0}) × StateFactoryResult X × X.Extensions)
      (states : List (StateFactoryResult X))
      (again : X.Extensions → Pass × List (StateFactoryResult X) × X.Extensions)
      → LeftOther n v e p
      → ((e' : X.Extensions) → Round n v (again e'))
      → Round n v (after_state X p states again)
  after_other-Round n v e (ready x, s, e') states again h k = k e'
  after_other-Round n v e (not_ready, s, e') states again (h, l) k =
      stay_other-Round n v s (again e') h (k e')
  after_other-Round n v e (error x, s, e') states again h k = absurd h
  after_other-Round n v e (panicked, s, e') states again h k = absurd h

  poll_states-Round :
      (n : ℕ) (v : X.State) (states : List (StateFactoryResult X)) (e : X.Extensions)
      → OneIs (suc n) v states
      → Round n v (poll_states X states e)
  unfolding poll_states
  poll_states-Round n v [] e h = absurd h
  poll_states-Round n v (s ∷ states) e (inl (h, k)) =
      after_is-Round n v e (poll_result X s e) states (poll_states X states)
        (poll_result-LeftIs n v e s h) (λ e'. poll_states-OthersLeft n v states e' k)
  poll_states-Round n v (s ∷ states) e (inr (h, k)) =
      after_other-Round n v e (poll_result X s e) states (poll_states X states)
        (poll_result-LeftOther n v e s h) (λ e'. poll_states-Round n v states e' k)

  pub ComesIn-Round :
      (n : ℕ) (v : X.State) (states : List (StateFactoryResult X)) (e : X.Extensions)
      → ComesIn (suc n) v states e
      → Round n v (poll_states X states e)
  ComesIn-Round n v states e (inl (h, k)) =
      OthersLeft-Round n v e (poll_states X states e) k (poll_states-OthersLeft n v states e h)
  ComesIn-Round n v states e (inr h) = poll_states-Round n v states e h
