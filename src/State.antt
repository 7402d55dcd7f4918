-- ===== src/State.antt =====
-- The states of an application: src/state.rs, and in src/app.rs the future that fills the
-- extensions with them. The type map `Extensions` of `actix_http` is a parameter.
pub mod Registered
pub mod Round
pub mod Start
pub mod Tests
use actix_web.Prelude.{
  Bool, Option, none, some, List, [], ◌∷◌, map, if◌then◌else◌, is_empty, Result, ok, err, ◌≡◌, ◌≢◌,
}
use actix_web.Futures.{Poll, Fut, ready, not_ready, error, panicked, poll_fut}

-- `Extensions`, of the values `State<S>`: `insert` replaces the value of the same type.
pub record ExtensionTypes : Type 1 where
  pub TypeId : Type 0
  pub State : Type 0
  pub type_of : State → TypeId
  pub Extensions : Type 0
  pub insert : Extensions → State → Extensions
  pub get : Extensions → TypeId → Option State
  pub get-insert : (e : Extensions) (v : State) → get (insert e v) (type_of v) ≡ some v
  pub get-insert-ne :
      (e : Extensions) (v : State) (t : TypeId) → type_of v ≢ t → get (insert e v) t ≡ get e t

module _ (X : ExtensionTypes) where
  -- `StateFactory`: `State<S>`, or a function, by the future of what it returns.
  pub data StateFactory : Type 0 where
    state : X.State → StateFactory
    factory : Fut X.State (Unit {0}) → StateFactory

  -- `StateFactoryResult`: `StateFut` and `StateFactoryFut`.
  pub data StateFactoryResult : Type 0 where
    state_fut : X.State → StateFactoryResult
    state_factory_fut : Fut X.State (Unit {0}) → StateFactoryResult

  -- `AppStateFactoryResult`; `is_unique` says that no application that was started before holds
  -- the extensions, which is when `Rc::get_mut` gives them.
  pub record AppStateFactoryResult : Type 0 where
    pub state : List StateFactoryResult
    pub extensions : X.Extensions
    pub is_unique : Bool

-- What `from_request` fails with: the internal server error.
pub data NotConfigured : Type 0 where
  not_configured : NotConfigured

-- What the loop has found: it went through, or it was left by an error or a panic.
pub data Pass : Type 0 where
  passed : Pass
  failed : Pass
  panic : Pass

module _ {X : ExtensionTypes} where
  -- `StateFactory::construct`.
  abbrev pub construct : StateFactory X → StateFactoryResult X
  construct (state v) = state_fut v
  construct (factory fut) = state_factory_fut fut

  -- `NewService::new_service` of `AppStateFactory`.
  abbrev pub new_service : List (StateFactory X) → X.Extensions → Bool → AppStateFactoryResult X
  new_service factories extensions is_unique = record {
    state = map construct factories;
    extensions = extensions;
    is_unique = is_unique;
  }

module _ (X : ExtensionTypes) where
  -- What `StateFactoryFut::poll_result` makes of the poll of its future.
  abbrev pub keep :
      X.Extensions
      → Poll X.State (Unit {0}) × Fut X.State (Unit {0})
      → Poll (Unit {0}) (Unit {0}) × StateFactoryResult X × X.Extensions
  keep e (ready s, fut) = (ready tt, state_factory_fut fut, X.insert e s)
  keep e (not_ready, fut) = (not_ready, state_factory_fut fut, e)
  keep e (error x, fut) = (error tt, state_factory_fut fut, e)
  keep e (panicked, fut) = (panicked, state_factory_fut fut, e)

  -- `StateFactoryResult::poll_result`.
  unfoldable pub poll_result :
      StateFactoryResult X
      → X.Extensions
      → Poll (Unit {0}) (Unit {0}) × StateFactoryResult X × X.Extensions
  poll_result (state_fut st) e = (ready tt, state_fut st, X.insert e st)
  poll_result (state_factory_fut fut) e = keep e (poll_fut fut)

  -- A state that stays in the list.
  abbrev pub stay :
      StateFactoryResult X
      → Pass × List (StateFactoryResult X) × X.Extensions
      → Pass × List (StateFactoryResult X) × X.Extensions
  stay s (pass, states, e) = (pass, s ∷ states, e)

  -- One round of the loop: a state that is ready is removed, any other is passed over, and an
  -- error leaves the loop. `again` is the loop over the states behind.
  abbrev pub after_state :
      Poll (Unit {0}) (Unit {0}) × StateFactoryResult X × X.Extensions
      → List (StateFactoryResult X)
      → (X.Extensions → Pass × List (StateFactoryResult X) × X.Extensions)
      → Pass × List (StateFactoryResult X) × X.Extensions
  after_state (ready u, s, e) states again = again e
  after_state (not_ready, s, e) states again = stay s (again e)
  after_state (error x, s, e) states again = (failed, s ∷ states, e)
  after_state (panicked, s, e) states again = (panic, s ∷ states, e)

  -- `while idx < self.state.len()`.
  unfoldable pub poll_states :
      List (StateFactoryResult X) → X.Extensions → Pass × List (StateFactoryResult X) × X.Extensions
  poll_states [] e = (passed, [], e)
  poll_states (s ∷ states) e = after_state (poll_result s e) states (poll_states states)

  -- The end of `poll`; an `AppStateService` is its extensions.
  abbrev pub after_states :
      AppStateFactoryResult X
      → Pass × List (StateFactoryResult X) × X.Extensions
      → Poll X.Extensions (Unit {0}) × AppStateFactoryResult X
  after_states c (passed, [], e) = (ready e, record c { state = []; extensions = e })
  after_states c (passed, s ∷ states, e) =
      (not_ready, record c { state = s ∷ states; extensions = e })
  after_states c (failed, states, e) = (error tt, record c { state = states; extensions = e })
  after_states c (panic, states, e) = (panicked, record c { state = states; extensions = e })

  -- `Future::poll` of `AppStateFactoryResult`.
  unfoldable pub poll :
      AppStateFactoryResult X → Poll X.Extensions (Unit {0}) × AppStateFactoryResult X
  poll c =
      if c.is_unique
      then after_states c (poll_states c.state c.extensions)
      else (ready c.extensions, c)

  -- `FromRequest` of `State<S>`, given the extensions of the request and the type.
  unfoldable pub from_request : X.Extensions → X.TypeId → Result X.State NotConfigured
  from_request e t = elim (X.get e t) [ some st ↦ ok st | none ↦ err not_configured ]
