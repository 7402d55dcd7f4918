-- ===== src/Resource/Items.antt =====
-- The futures of a resource (src/resource.rs) whose routes each take some polls to create, between
-- two polls of `CreateResourceService`.
use actix_web.Prelude.{
  ℕ, zero, suc, Bool, true, ◌&&◌, Option, none, some, List, [], ◌∷◌, ◌≡◌, ap, refl, ok, arith, map,
  leb,
}
use mathlib.Core.Path.{ap₂}
use actix_web.Futures.{Fut, after}
use actix_web.Http.{HttpTypes}
use actix_web.Route.{Service, Route, RouteService, CreateRouteService, new_service}
use actix_web.Resource.{
  Resource, CreateResourceService, CreateRouteServiceItem, future, service, Sweep, swept, create,
  poll_item, poll_items, join_item, after_default, poll_default, poll, drain, after_items,
}

-- A route whose service takes `wait` polls to create.
pub record Pending (H : HttpTypes) (P : Type 0) : Type 0 where
  pub wait : ℕ
  pub built : RouteService H P

module _ {H : HttpTypes} {P : Type 0} where
  abbrev pub creating : ℕ → RouteService H P → CreateRouteService H P
  creating wait s = record { fut = after wait (ok s.service); filters = s.filters }

  abbrev pub route_of : Pending H P → Route H P
  route_of w = record { new_service = after w.wait (ok w.built.service); filters = w.built.filters }

  abbrev pub built : List (Pending H P) → List (RouteService H P)
  built [] = []
  built (w ∷ ws) = w.built ∷ built ws

  -- The item of a route that takes `wait` polls, once it has been polled `t` times.
  abbrev pub at : ℕ → ℕ → RouteService H P → CreateRouteServiceItem H P
  at zero wait s = future (creating wait s)
  at (suc t) zero s = service s
  at (suc t) (suc wait) s = at t wait s

  abbrev pub all_at : ℕ → List (Pending H P) → List (CreateRouteServiceItem H P)
  all_at t [] = []
  all_at t (w ∷ ws) = at t w.wait w.built ∷ all_at t ws

  -- No route takes more than `t` polls.
  abbrev pub all_by : ℕ → List (Pending H P) → Bool
  all_by t [] = true
  all_by t (w ∷ ws) = leb w.wait t && all_by t ws

  poll_item-at :
      (t wait : ℕ) (s : RouteService H P)
      → poll_item (at t wait s) ≡ (swept (leb wait t), at (suc t) wait s)
  unfolding poll_item
  poll_item-at zero zero s = refl
  poll_item-at zero (suc wait) s = ground arith
  poll_item-at (suc t) zero s = ground arith
  poll_item-at (suc t) (suc wait) s = ground (arith, poll_item-at t wait s)

  pub poll_items-at :
      (t : ℕ) (ws : List (Pending H P))
      → poll_items (all_at t ws) ≡ (swept (all_by t ws), all_at (suc t) ws)
  unfolding poll_items
  poll_items-at t [] = refl
  poll_items-at t (w ∷ ws) =
      ap₂ (λ p q. join_item p (all_at t ws) q) (poll_item-at t w.wait w.built) (poll_items-at t ws)

  at_end : (t wait : ℕ) (s : RouteService H P) → leb wait t ≡ true → at (suc t) wait s ≡ service s
  at_end t zero s h = refl
  at_end zero (suc wait) s h = ground arith
  at_end (suc t) (suc wait) s h = at_end t wait s (ground arith)

  pub drain-at :
      (t : ℕ) (ws : List (Pending H P))
      → all_by t ws ≡ true
      → drain (all_at (suc t) ws) ≡ some (built ws)
  unfolding drain
  drain-at t [] h = refl
  drain-at t (w ∷ ws) h =
      rw (at_end t w.wait w.built (ground arith), drain, drain-at t ws (ground arith)) refl

  -- A resource of these routes, and what its factory creates.
  abbrev pub routes_of : List (Pending H P) → List (Route H P)
  routes_of [] = []
  routes_of (w ∷ ws) = route_of w ∷ routes_of ws

  abbrev pub resource : List (Pending H P) → Option (Fut (Service H P) (Unit {0})) → Resource H P
  resource ws d = record { routes = routes_of ws; default = d }

  abbrev pub state :
      List (CreateRouteServiceItem H P)
      → Option (Service H P) × Option (Fut (Service H P) (Unit {0}))
      → CreateResourceService H P
  state items (default, default_fut) = record {
    fut = items;
    default = default;
    default_fut = default_fut;
  }

  items_at :
      (ws : List (Pending H P)) → map (λ r. future (new_service r)) (routes_of ws) ≡ all_at zero ws
  items_at [] = refl
  items_at (w ∷ ws) = ap (λ r. future (creating w.wait w.built) ∷ r) (items_at ws)

  pub create_at :
      (ws : List (Pending H P)) (d : Option (Fut (Service H P) (Unit {0})))
      → create (resource ws d) ≡ state (all_at zero ws) (none, d)
  unfolding create
  create_at ws d = ap (λ items. state items (none, d)) (items_at ws)

  -- One poll, by what the default's future gives.
  pub poll_at :
      (t : ℕ) (ws : List (Pending H P))
      (dd dd' : Option (Service H P) × Option (Fut (Service H P) (Unit {0}))) (b : Bool)
      → poll_default dd.0 dd.1 ≡ (swept b, dd'.0, dd'.1)
      → poll (state (all_at t ws) dd)
        ≡ after_items (state (all_at (suc t) ws) dd') (swept (b && all_by t ws))
  unfolding poll
  poll_at t ws dd dd' b e =
      ap₂
        (λ (p : Sweep × Option (Service H P) × Option (Fut (Service H P) (Unit {0}))) q.
          after_default (state (all_at t ws) (p.1, p.2)) p.0 q)
        e (poll_items-at t ws)
