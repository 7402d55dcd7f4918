-- ===== src/Route/Check.antt =====
-- Which requests a route (src/route.rs) takes, by its filters.
use actix_web.Prelude.{List, [], ◌∷◌, All, true, false, ◌≡◌, refl, ◌⊎◌, inl, inr, Bool-cases}
use actix_web.Http.{HttpRequest, HttpTypes, ServiceRequest}
use actix_web.Filter.{Filters, nil, cons, check}
use actix_web.Route.{check_filters, check_route, RouteService}

-- Every filter accepts the request.
abbrev pub Accepts : Filters → HttpRequest → Type 0
Accepts nil req = Unit
Accepts (cons f fs) req = (check f req ≡ true) × Accepts fs req

-- One of the filters refuses the request.
abbrev pub Rejects : Filters → HttpRequest → Type 0
Rejects nil req = ⊥
Rejects (cons f fs) req = (check f req ≡ false) ⊎ Rejects fs req

pub Accepts-check_filters :
    (fs : Filters) (req : HttpRequest) → Accepts fs req → check_filters fs req ≡ true
unfolding check_filters
Accepts-check_filters nil req h = refl
Accepts-check_filters (cons f fs) req (h, k) = rw h (Accepts-check_filters fs req k)

pub check_filters-Accepts :
    (fs : Filters) (req : HttpRequest) → check_filters fs req ≡ true → Accepts fs req
unfolding check_filters
check_filters-Accepts nil req h = tt
check_filters-Accepts (cons f fs) req h = elim (Bool-cases (check f req)) [
  | inl accepts ↦ (accepts, check_filters-Accepts fs req (rw accepts at h))
  | inr refuses ↦ absurd (cc (rw refuses at h))
]

pub Rejects-check_filters :
    (fs : Filters) (req : HttpRequest) → Rejects fs req → check_filters fs req ≡ false
unfolding check_filters
Rejects-check_filters nil req h = absurd h
Rejects-check_filters (cons f fs) req (inl h) = rw h refl
Rejects-check_filters (cons f fs) req (inr h) = elim (Bool-cases (check f req)) [
  | inl accepts ↦ rw accepts (Rejects-check_filters fs req h)
  | inr refuses ↦ rw refuses refl
]

-- Routes of which each has a filter that refuses the request do not take it.
pub All-Rejects :
    {H : HttpTypes} {P : Type 0} (req : ServiceRequest P) (rs : List (RouteService H P))
    → All (λ r. Rejects r.filters req.req) rs
    → All (λ r. check_route r req ≡ false) rs
unfolding check_route
All-Rejects req [] h = tt
All-Rejects req (r ∷ rs) (h, k) = (Rejects-check_filters r.filters req.req h, All-Rejects req rs k)
