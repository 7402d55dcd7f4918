-- ===== src/State/Registered.antt =====
-- `App::state` and `App::state_factory` of src/app.rs, and what the requests of an application find
-- of the states that were registered by them.
use actix_web.Prelude.{
  String, append_nil, append_assoc, true, some, none, List, [], ◌∷◌, ◌++◌, map, ◌≡◌, ◌≢◌, refl, ap,
  sym, ◌∙◌, ok, err, Result, All,
}
use actix_web.Prelude.Text.{Text}
use actix_web.Http.{ServiceRequest}
use actix_web.Futures.{Fut, ready, now}
use actix_web.State.{
  ExtensionTypes, StateFactory, state, state_fut, passed, construct, new_service, poll_states,
  poll_result, poll, from_request, NotConfigured, not_configured, after_states,
}
use actix_web.State.Start.{drive, react, found_configured, absent_configured}

module _ (X : ExtensionTypes) where
  -- One call on the builder of an application: of `state`, by the value, or of `state_factory`, by
  -- the function, which is a value of a type of its own, and by what it would return.
  pub data Call : Type 0 where
    of_state : X.State → Call
    of_factory : X.State → Fut X.State (Unit {0}) → Call

  -- A `ServiceRequest` with the extensions that its `HttpRequest` holds.
  pub record Served (P : Type 0) : Type 0 where
    pub req : ServiceRequest P
    pub extensions : X.Extensions

module _ {X : ExtensionTypes} where
  -- `App::state`.
  abbrev pub add_state : List (StateFactory X) → X.State → List (StateFactory X)
  add_state states v = states ++ state v ∷ []

  -- `App::state_factory`, which does not call the function.
  abbrev pub add_state_factory :
      List (StateFactory X) → X.State → Fut X.State (Unit {0}) → List (StateFactory X)
  add_state_factory states f result = states ++ state f ∷ []

  abbrev pub configure : List (StateFactory X) → List (Call X) → List (StateFactory X)
  configure states [] = states
  configure states (of_state v ∷ calls) = configure (add_state states v) calls
  configure states (of_factory f result ∷ calls) =
      configure (add_state_factory states f result) calls

  -- `Service::call` of `AppStateService`, which is its extensions; `new_path` is the path of
  -- `Path::new(Url::new(..))`.
  unfoldable pub serve_state :
      {P : Type 0} → (String → Text) → X.Extensions → ServiceRequest P → Fut (Served X P) (Unit {0})
  serve_state new_path e req = now (
      ok (record {
        req = record req { req = record req.req { match_path = new_path req.req.path } };
        extensions = e;
      }))

  -- What a call stores.
  abbrev pub stored : Call X → X.State
  stored (of_state v) = v
  stored (of_factory f result) = f

module _ (X : ExtensionTypes) where
  abbrev insert_all : X.Extensions → List X.State → X.Extensions
  insert_all e [] = e
  insert_all e (v ∷ vs) = insert_all (X.insert e v) vs

  configure-map :
      (states : List (StateFactory X)) (calls : List (Call X))
      → configure states calls ≡ states ++ map (λ c. state (stored c)) calls
  configure-map states [] = sym (append_nil states)
  configure-map states (of_state v ∷ calls) =
      configure-map (add_state states v) calls ∙ append_assoc states (state v ∷ []) _
  configure-map states (of_factory f result ∷ calls) =
      configure-map (add_state_factory states f result) calls ∙ append_assoc states (state f ∷ []) _

  get-insert_all_ne :
      (e : X.Extensions) (t : X.TypeId) (vs : List X.State)
      → All (λ v. X.type_of v ≢ t) vs
      → X.get (insert_all e vs) t ≡ X.get e t
  get-insert_all_ne e t [] h = refl
  get-insert_all_ne e t (v ∷ vs) (h, k) =
      get-insert_all_ne (X.insert e v) t vs k ∙ X.get-insert-ne e v t h

  get-insert_all :
      (e : X.Extensions) (before : List X.State) (v : X.State) (behind : List X.State)
      → All (λ u. X.type_of u ≢ X.type_of v) behind
      → X.get (insert_all e (before ++ v ∷ behind)) (X.type_of v) ≡ some v
  get-insert_all e [] v behind h =
      get-insert_all_ne (X.insert e v) (X.type_of v) behind h ∙ X.get-insert e v
  get-insert_all e (u ∷ before) v behind h = get-insert_all (X.insert e u) before v behind h

  poll_states-all :
      (e : X.Extensions) (vs : List X.State)
      → poll_states X (map (λ v. state_fut v) vs) e ≡ (passed, [], insert_all e vs)
  unfolding poll_states poll_result
  poll_states-all e [] = refl
  poll_states-all e (v ∷ vs) = poll_states-all (X.insert e v) vs

  constructed :
      (calls : List (Call X))
      → map (construct {X = X}) (map (λ c. state (stored c)) calls)
        ≡ map (λ v. state_fut v) (map stored calls)
  constructed [] = refl
  constructed (c ∷ calls) = ap (λ states. state_fut (stored c) ∷ states) (constructed calls)

  loaded :
      (calls : List (Call X)) (e : X.Extensions)
      → poll_states X (map construct (configure [] calls)) e
        ≡ (passed, [], insert_all e (map stored calls))
  loaded calls e =
      ap (λ states. poll_states X (map construct states) e) (configure-map [] calls)
      ∙ ap (λ states. poll_states X states e) (constructed calls)
      ∙ poll_states-all e (map stored calls)

  drive-configure :
      (calls : List (Call X)) (e : X.Extensions)
      → drive X 1 (new_service (configure [] calls) e true)
        ≡ ready (insert_all e (map stored calls))
  unfolding drive poll
  drive-configure calls e =
      ap (λ r. react X (after_states X (new_service (configure [] calls) e true) r) (drive X 0))
        (loaded calls e)

  map-append_one :
      (before : List (Call X)) (c : Call X) (behind : List (Call X))
      → map stored (before ++ c ∷ behind) ≡ map stored before ++ stored c ∷ map stored behind
  map-append_one [] c behind = refl
  map-append_one (d ∷ before) c behind = ap (λ vs. stored d ∷ vs) (map-append_one before c behind)

  All-stored :
      (t : X.TypeId) (calls : List (Call X))
      → All (λ d. X.type_of (stored d) ≢ t) calls
      → All (λ v. X.type_of v ≢ t) (map stored calls)
  All-stored t [] h = tt
  All-stored t (c ∷ calls) (h, k) = (h, All-stored t calls k)

  -- What the extractor of a type finds in a request of an application that was started.
  abbrev pub Finds :
      {P : Type 0}
      → List (Call X)
      → X.Extensions
      → (String → Text)
      → ServiceRequest P
      → X.TypeId
      → Result X.State NotConfigured
      → Type 0
  Finds {P} calls e new_path req t result =
      (e' : X.Extensions) × (r : Served X P) × (drive X 1 (new_service (configure [] calls) e true)
        ≡ ready e')
      × (serve_state new_path e' req ≡ now (ok r))
      × (r.req.payload ≡ req.payload)
      × (from_request X r.extensions t ≡ result)

  -- What is found is what the extensions have.
  found_by_all :
      {P : Type 0} (calls : List (Call X)) (e : X.Extensions) (new_path : String → Text)
      (req : ServiceRequest P) (t : X.TypeId) (result : Result X.State NotConfigured)
      → from_request X (insert_all e (map stored calls)) t ≡ result
      → Finds calls e new_path req t result
  unfolding serve_state
  found_by_all calls e new_path req t result h = (
    insert_all e (map stored calls),
    record {
      req = record req { req = record req.req { match_path = new_path req.req.path } };
      extensions = insert_all e (map stored calls);
    },
    drive-configure calls e,
    refl,
    refl,
    h,
  )

-- An application that is started first is started by its first poll, and every request of it then
-- finds, by the type, what the last call that stores a value of that type has stored, be it `state`
-- or `state_factory`, whose function is itself what is stored.
pub configure-last :
    (X : ExtensionTypes) {P : Type 0} (before : List (Call X)) (c : Call X) (behind : List (Call X))
    (e : X.Extensions) (new_path : String → Text) (req : ServiceRequest P)
    → All (λ d. X.type_of (stored d) ≢ X.type_of (stored c)) behind
    → Finds X (before ++ c ∷ behind) e new_path req (X.type_of (stored c)) (ok (stored c))
configure-last X before c behind e new_path req h =
    found_by_all X (before ++ c ∷ behind) e new_path req (X.type_of (stored c)) (ok (stored c)) (
      found_configured X (stored c) _ (
        ap (λ vs. X.get (insert_all X e vs) (X.type_of (stored c)))
          (map-append_one X before c behind)
        ∙ get-insert_all X e (map stored before) (stored c) (map stored behind)
            (All-stored X (X.type_of (stored c)) behind h)))

-- A type of which no value was stored, by calls or before them, is not configured in any request,
-- although the functions given to `state_factory` may return values of it: the extractor fails.
pub configure-absent :
    (X : ExtensionTypes) {P : Type 0} (calls : List (Call X)) (e : X.Extensions)
    (new_path : String → Text) (req : ServiceRequest P) (t : X.TypeId)
    → All (λ d. X.type_of (stored d) ≢ t) calls
    → X.get e t ≡ none
    → Finds X calls e new_path req t (err not_configured)
configure-absent X calls e new_path req t h k =
    found_by_all X calls e new_path req t (err not_configured) (
      absent_configured X t _
        (get-insert_all_ne X e t (map stored calls) (All-stored X t calls h) ∙ k))
