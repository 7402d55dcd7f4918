-- ===== src/App/Create.antt =====
-- How the services of an application (src/app.rs) come to be: `CreateAppService` polled until it
-- is done.
use mathlib.Core.Path.{ap₂, subst}
use actix_web.Prelude.{
  ℕ, zero, suc, ◌≤◌, true, false, some, List, [], ◌∷◌, ◌≡◌, sym, refl, ok, arith, map,
}
use actix_web.Futures.{Poll, after, ready, not_ready, error, panicked}
use actix_web.Http.{HttpTypes}
use actix_web.Route.{Service}
use actix_web.Resource.{
  CreateResourceService, ResourceService, Sweep, swept, failed, panic, call as call_resource,
  poll as poll_resource,
}
use actix_web.Resource.Create.{drive as drive_resource, react as react_resource}
use actix_web.App.{
  RouterTypes, AppService, CreateAppServiceItem, future, service, HttpServiceFut, creating, boxed,
  poll_service, box_poll, poll_item, poll_items, join_item, settle, drain, after_items, poll,
}

module _ {H : HttpTypes} {P : Type 0} where
  -- The future gives the service at one of its first n + 1 polls, of which this is the first.
  abbrev pub ReadyBy : ℕ → Service H P → Poll (Service H P) (Unit {0}) × HttpServiceFut H P → Type 0
  ReadyBy n s (ready s', fut) = s' ≡ s
  ReadyBy zero s (not_ready, fut) = ⊥
  ReadyBy (suc n) s (not_ready, fut) = ReadyBy n s (poll_service fut)
  ReadyBy n s (error e, fut) = ⊥
  ReadyBy n s (panicked, fut) = ⊥

  unfoldable pub ReadyWithin : ℕ → Service H P → HttpServiceFut H P → Type 0
  ReadyWithin n s fut = ReadyBy n s (poll_service fut)

module _ {R : RouterTypes} {H : HttpTypes} {P : Type 0} where
  abbrev pub react :
      Poll (AppService R H P) (Unit {0}) × List (CreateAppServiceItem R H P)
      → (List (CreateAppServiceItem R H P) → Poll (AppService R H P) (Unit {0}))
      → Poll (AppService R H P) (Unit {0})
  react (not_ready, items) again = again items
  react (ready s, items) again = ready s
  react (error e, items) again = error e
  react (panicked, items) again = panicked

  -- A caller that polls until it has a result, at most `fuel` times; `not_ready` is a fuel that
  -- ran out.
  unfoldable pub drive : ℕ → List (CreateAppServiceItem R H P) → Poll (AppService R H P) (Unit {0})
  drive zero items = not_ready
  drive (suc fuel) items = react (poll items) (drive fuel)

  -- An item that is done within n + 1 polls.
  abbrev pub DoneBy : ℕ → R.ResourceDef × Service H P → CreateAppServiceItem R H P → Type 0
  DoneBy n (rdef, s) (service rdef' s') = (rdef' ≡ rdef) × (s' ≡ s)
  DoneBy n (rdef, s) (future rdef' fut) = (rdef' ≡ rdef) × ReadyWithin n s fut

  abbrev pub AllDoneBy :
      ℕ → List (R.ResourceDef × Service H P) → List (CreateAppServiceItem R H P) → Type 0
  AllDoneBy n [] [] = Unit
  AllDoneBy n [] (item ∷ items) = ⊥
  AllDoneBy n (e ∷ es) [] = ⊥
  AllDoneBy n (e ∷ es) (item ∷ items) = DoneBy n e item × AllDoneBy n es items

  abbrev done : R.ResourceDef × Service H P → CreateAppServiceItem R H P
  done (rdef, s) = service rdef s

  -- What a poll of an item that is done within n + 1 polls leaves.
  abbrev Left : ℕ → R.ResourceDef × Service H P → Sweep × CreateAppServiceItem R H P → Type 0
  Left n e (swept true, item) = item ≡ done e
  Left zero e (swept false, item) = ⊥
  Left (suc n) e (swept false, item) = DoneBy n e item
  Left n e (failed, item) = ⊥
  Left n e (panic, item) = ⊥

  abbrev AllLeft :
      ℕ → List (R.ResourceDef × Service H P) → Sweep × List (CreateAppServiceItem R H P) → Type 0
  AllLeft n es (swept true, items) = items ≡ map done es
  AllLeft zero es (swept false, items) = ⊥
  AllLeft (suc n) es (swept false, items) = AllDoneBy n es items
  AllLeft n es (failed, items) = ⊥
  AllLeft n es (panic, items) = ⊥

  -- An item that is done is done within any number of polls.
  done-DoneBy :
      (n : ℕ) (e : R.ResourceDef × Service H P) (item : CreateAppServiceItem R H P)
      → item ≡ done e
      → DoneBy n e item
  done-DoneBy n (rdef, s) item h = subst (DoneBy n (rdef, s)) (sym h) (refl, refl)

module _ (R : RouterTypes) {H : HttpTypes} {P : Type 0} where
  settle-Left :
      (n : ℕ) (rdef : R.ResourceDef) (s : Service H P) (rdef' : R.ResourceDef)
      (p : Poll (Service H P) (Unit {0}) × HttpServiceFut H P)
      → rdef' ≡ rdef
      → ReadyBy n s p
      → Left {R = R} n (rdef, s) (settle rdef' p)
  unfolding ReadyWithin
  settle-Left n rdef s rdef' (ready s', fut) e h = ap₂ (λ r t. service r t) e h
  settle-Left (suc n) rdef s rdef' (not_ready, fut) e h = (e, h)
  settle-Left zero rdef s rdef' (not_ready, fut) e h = absurd h
  settle-Left n rdef s rdef' (error x, fut) e h = absurd h
  settle-Left n rdef s rdef' (panicked, fut) e h = absurd h

  all_done-AllDoneBy :
      (n : ℕ) (es : List (R.ResourceDef × Service H P))
      → AllDoneBy {R = R} n es (map (done {R = R}) es)
  all_done-AllDoneBy n [] = tt
  all_done-AllDoneBy n (e ∷ es) = (done-DoneBy {R = R} n e (done e) refl, all_done-AllDoneBy n es)

  drain-done : (es : List (R.ResourceDef × Service H P)) → drain (map (done {R = R}) es) ≡ some es
  unfolding drain
  drain-done [] = refl
  drain-done ((rdef, s) ∷ es) = rw (drain-done es) refl

  -- That the polls after this one, if there may be any, give these services.
  abbrev Again : ℕ → List (R.ResourceDef × Service H P) → Type 0
  Again zero es = Unit
  Again (suc n) es =
      (items : List (CreateAppServiceItem R H P))
      → AllDoneBy {R = R} n es items
      → drive {R = R} (suc n) items ≡ ready (record { router = es })

module _ {R : RouterTypes} {H : HttpTypes} {P : Type 0} where
  poll_item-Left :
      (n : ℕ) (e : R.ResourceDef × Service H P) (item : CreateAppServiceItem R H P)
      → DoneBy n e item
      → Left n e (poll_item item)
  unfolding poll_item ReadyWithin
  poll_item-Left n (rdef, s) (service rdef' s') (e, h) = ap₂ (λ r t. service r t) e h
  poll_item-Left n (rdef, s) (future rdef' fut) (e, h) =
      settle-Left R n rdef s rdef' (poll_service fut) e h

  join_item-AllLeft :
      (n : ℕ) (e : R.ResourceDef × Service H P) (es : List (R.ResourceDef × Service H P))
      (first : Sweep × CreateAppServiceItem R H P) (items : List (CreateAppServiceItem R H P))
      (rest : Sweep × List (CreateAppServiceItem R H P))
      → Left n e first
      → AllLeft n es rest
      → AllLeft n (e ∷ es) (join_item first items rest)
  join_item-AllLeft n e es (swept true, item) items (swept true, items') h k =
      ap₂ (λ i is. i ∷ is) h k
  join_item-AllLeft (suc n) e es (swept true, item) items (swept false, items') h k =
      (done-DoneBy n e item h, k)
  join_item-AllLeft (suc n) e es (swept false, item) items (swept true, items') h k =
      (h, subst (AllDoneBy n es) (sym k) (all_done-AllDoneBy R n es))
  join_item-AllLeft (suc n) e es (swept false, item) items (swept false, items') h k = (h, k)
  join_item-AllLeft zero e es (swept true, item) items (swept false, items') h k = absurd k
  join_item-AllLeft zero e es (swept false, item) items rest h k = absurd h
  join_item-AllLeft n e es (failed, item) items rest h k = absurd h
  join_item-AllLeft n e es (panic, item) items rest h k = absurd h
  join_item-AllLeft n e es (swept b, item) items (failed, items') h k = absurd k
  join_item-AllLeft n e es (swept b, item) items (panic, items') h k = absurd k

  poll_items-AllLeft :
      (n : ℕ) (es : List (R.ResourceDef × Service H P)) (items : List (CreateAppServiceItem R H P))
      → AllDoneBy n es items
      → AllLeft n es (poll_items items)
  unfolding poll_items
  poll_items-AllLeft n [] [] h = refl
  poll_items-AllLeft n [] (item ∷ items) h = absurd h
  poll_items-AllLeft n (e ∷ es) [] h = absurd h
  poll_items-AllLeft n (e ∷ es) (item ∷ items) (h, k) =
      join_item-AllLeft n e es (poll_item item) items (poll_items items) (poll_item-Left n e item h)
        (poll_items-AllLeft n es items k)

  drive_left :
      (n : ℕ) (es : List (R.ResourceDef × Service H P))
      (swept_items : Sweep × List (CreateAppServiceItem R H P))
      → AllLeft n es swept_items
      → Again R n es
      → react (after_items swept_items) (drive n) ≡ ready (record { router = es })
  drive_left n es (swept true, items) h again = rw (h, drain-done R es) refl
  drive_left (suc n) es (swept false, items) h again = again items h
  drive_left zero es (swept false, items) h again = absurd h
  drive_left n es (failed, items) h again = absurd h
  drive_left n es (panic, items) h again = absurd h

module _ {H : HttpTypes} {P : Type 0} where
  abbrev IsReadyWith : ResourceService H P → Poll (ResourceService H P) (Unit {0}) → Type 0
  IsReadyWith rs (ready rs') = call_resource rs' ≡ call_resource rs
  IsReadyWith rs not_ready = ⊥
  IsReadyWith rs (error e) = ⊥
  IsReadyWith rs panicked = ⊥

  drive_resource-ReadyBy :
      (n : ℕ) (p : Poll (ResourceService H P) (Unit {0}) × CreateResourceService H P)
      (rs : ResourceService H P)
      → react_resource p (drive_resource n) ≡ ready rs
      → ReadyBy n (call_resource rs) (box_poll p)
  unfolding poll_service drive_resource
  drive_resource-ReadyBy n (ready rs', c) rs h = subst (IsReadyWith rs) (sym h) refl
  drive_resource-ReadyBy zero (not_ready, c) rs h = subst (IsReadyWith rs) (sym h) refl
  drive_resource-ReadyBy (suc n) (not_ready, c) rs h =
      drive_resource-ReadyBy n (poll_resource c) rs h
  drive_resource-ReadyBy n (error e, c) rs h = subst (IsReadyWith rs) (sym h) refl
  drive_resource-ReadyBy n (panicked, c) rs h = subst (IsReadyWith rs) (sym h) refl

  -- A resource that is created by poll n + 1 gives its service then.
  pub drive_resource-ReadyWithin :
      (n : ℕ) (c : CreateResourceService H P) (rs : ResourceService H P)
      → drive_resource (suc n) c ≡ ready rs
      → ReadyWithin n (call_resource rs) (creating c)
  unfolding poll_service drive_resource ReadyWithin
  drive_resource-ReadyWithin n c rs h = drive_resource-ReadyBy n (poll_resource c) rs h

-- A factory of one's own that takes `m` polls.
pub after-ReadyWithin :
    {H : HttpTypes} {P : Type 0} (n m : ℕ) (s : Service H P)
    → m ≤ n
    → ReadyWithin n s (boxed (after m (ok s)))
unfolding poll_service ReadyWithin
after-ReadyWithin zero zero s h = refl
after-ReadyWithin (suc n) zero s h = refl
after-ReadyWithin zero (suc m) s h = absurd (omega arith)
after-ReadyWithin (suc n) (suc m) s h = after-ReadyWithin n m s (omega arith)

-- An application whose services are each created within n + 1 polls is created within n + 1 polls,
-- with all its services behind their patterns, in the order in which they were registered.
pub drive-ready :
    {R : RouterTypes} {H : HttpTypes} {P : Type 0} (n : ℕ) (es : List (R.ResourceDef × Service H P))
    (items : List (CreateAppServiceItem R H P))
    → AllDoneBy n es items
    → drive (suc n) items ≡ ready (record { router = es })
unfolding poll drive
drive-ready zero es items h =
    drive_left zero es (poll_items items) (poll_items-AllLeft zero es items h) tt
drive-ready (suc n) es items h =
    drive_left (suc n) es (poll_items items) (poll_items-AllLeft (suc n) es items h)
      (drive-ready n es)
