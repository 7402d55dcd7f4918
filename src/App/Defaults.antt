-- ===== src/App/Defaults.antt =====
-- How `App::into_new_service` (src/app.rs) hands the default of the application on to its
-- resources.
use mathlib.Core.Path.{ap₂}
use actix_web.Prelude.{
  append_nil, append_assoc, ℕ, zero, suc, String, Bool, true, false, Option, none, some, List, [],
  ◌∷◌, ◌++◌, ◌≡◌, sym, ap, ◌∙◌, refl, arith, length, length-append, Bool-cases, inl, inr,
}
use actix_web.Futures.{Fut}
use actix_web.Http.{HttpTypes}
use actix_web.Route.{Service}
use actix_web.Resource.{Resource, new as new_resource}
use actix_web.App.{
  RouterTypes, App, Cells, new, add_resource, default_resource, add_service, middleware,
  into_new_service, fill, fill_all, fill_default, NewService, resource_factory, custom,
}

-- What a program does to an application before it starts it.
pub data Step (R : RouterTypes) (H : HttpTypes) (P : Type 0) : Type 0 where
  resource : String → (Resource H P → Resource H P) → Step R H P
  default_to : Fut (Service H P) (Unit {0}) → Step R H P
  service : R.ResourceDef → Fut (Service H P) (Unit {0}) → Step R H P
  wrapped : (Fut (Service H P) (Unit {0}) → Fut (Service H P) (Unit {0})) → Step R H P

module _ {R : RouterTypes} {H : HttpTypes} {P : Type 0} where
  abbrev pub step : App R H P → Step R H P → App R H P
  step a (resource path f) = add_resource a path f
  step a (default_to d) = default_resource a d
  step a (service rdef factory) = add_service a rdef factory
  step a (wrapped mw) = middleware a mw

  abbrev pub run : App R H P → List (Step R H P) → App R H P
  run a [] = a
  run a (s ∷ steps) = run (step a s) steps

  -- Whether a middleware is registered.
  abbrev pub has_middleware : List (Step R H P) → Bool
  has_middleware [] = false
  has_middleware (wrapped mw ∷ steps) = true
  has_middleware (resource path f ∷ steps) = has_middleware steps
  has_middleware (default_to d ∷ steps) = has_middleware steps
  has_middleware (service rdef factory ∷ steps) = has_middleware steps

  -- What the middleware that is registered makes of a future of the service behind it: what was
  -- registered first is the innermost.
  abbrev pub layered :
      List (Step R H P) → Fut (Service H P) (Unit {0}) → Fut (Service H P) (Unit {0})
  layered [] f = f
  layered (wrapped mw ∷ steps) f = layered steps (mw f)
  layered (resource path g ∷ steps) f = layered steps f
  layered (default_to d ∷ steps) f = layered steps f
  layered (service rdef factory ∷ steps) f = layered steps f

  -- The default that is set last.
  abbrev pub last_default :
      Option (Fut (Service H P) (Unit {0}))
      → List (Step R H P)
      → Option (Fut (Service H P) (Unit {0}))
  last_default d [] = d
  last_default d (default_to e ∷ steps) = last_default (some e) steps
  last_default d (resource path f ∷ steps) = last_default d steps
  last_default d (service rdef factory ∷ steps) = last_default d steps
  last_default d (wrapped mw ∷ steps) = last_default d steps

abbrev pub or_else {ℓ} : {D : Type ℓ} → Option D → Option D → Option D
or_else (some a) b = some a
or_else none b = b

abbrev unless {ℓ} : {A : Type ℓ} → Bool → List A → List A
unless true xs = []
unless false xs = xs

-- What a resource registered before these steps gets.
abbrev pub handed_on {ℓ} : {D : Type ℓ} → Bool → Option D → Option D → Option D
handed_on true own d = own
handed_on false own d = or_else own d

module _ {R : RouterTypes} {H : HttpTypes} {P : Type 0} where
  -- The defaults with which the resources are created, in the order of the resources, if the
  -- default of the application is `d`.
  abbrev pub defaults_of : Option (Fut (Service H P) (Unit {0})) → List (Step R H P) → Cells H P
  defaults_of d [] = []
  defaults_of d (resource path f ∷ steps) =
      handed_on (has_middleware steps) (f new_resource).default d ∷ defaults_of d steps
  defaults_of d (default_to e ∷ steps) = defaults_of d steps
  defaults_of d (service rdef factory ∷ steps) = defaults_of d steps
  defaults_of d (wrapped mw ∷ steps) = defaults_of d steps

  -- The cells that the steps add, and those of them, counted from `n`, that are still known.
  abbrev own : List (Step R H P) → Cells H P
  own [] = []
  own (resource path f ∷ steps) = (f new_resource).default ∷ own steps
  own (default_to e ∷ steps) = own steps
  own (service rdef factory ∷ steps) = own steps
  own (wrapped mw ∷ steps) = own steps

  abbrev known : ℕ → List (Step R H P) → List ℕ
  known n [] = []
  known n (resource path f ∷ steps) = unless (has_middleware steps) (n ∷ []) ++ known (suc n) steps
  known n (default_to e ∷ steps) = known n steps
  known n (service rdef factory ∷ steps) = known n steps
  known n (wrapped mw ∷ steps) = known n steps

  -- The services that the steps register, if `n` cells are there.
  abbrev pub registered : ℕ → List (Step R H P) → List (R.ResourceDef × NewService H P)
  registered n [] = []
  registered n (resource path f ∷ steps) =
      (R.new_def path, resource_factory (f new_resource).routes n) ∷ registered (suc n) steps
  registered n (default_to e ∷ steps) = registered n steps
  registered n (service rdef factory ∷ steps) = (rdef, custom factory) ∷ registered n steps
  registered n (wrapped mw ∷ steps) = registered n steps

module _ {ℓ} {A : Type ℓ} where
  unless_nil : (b : Bool) (xs : List A) → unless b [] ++ xs ≡ xs
  unless_nil true xs = refl
  unless_nil false xs = refl

  unless-append : (b : Bool) (xs ys : List A) → unless b (xs ++ ys) ≡ unless b xs ++ unless b ys
  unless-append true xs ys = refl
  unless-append false xs ys = refl

-- `fill`, where its cell stands behind others.
fill-append :
    {D : Type 0} (d : D) (before : List (Option D)) (cell : Option D) (cells : List (Option D))
    → fill d (length before) (before ++ cell ∷ cells) ≡ before ++ or_else cell (some d) ∷ cells
fill-append d [] none cells = refl
fill-append d [] (some own) cells = refl
fill-append d (none ∷ before) cell cells = ap (λ r. none ∷ r) (fill-append d before cell cells)
fill-append d (some x ∷ before) cell cells = ap (λ r. some x ∷ r) (fill-append d before cell cells)

-- `handed_on` where there is nothing to hand on.
handed_on-none : {D : Type 0} (b : Bool) (own : Option D) → own ≡ handed_on b own none
handed_on-none true own = refl
handed_on-none false none = refl
handed_on-none false (some d) = refl

module _ {R : RouterTypes} {H : HttpTypes} {P : Type 0} where
  run-default :
      (steps : List (Step R H P)) (a : App R H P)
      → (run a steps).default ≡ last_default a.default steps
  unfolding add_resource default_resource add_service middleware
  run-default [] a = refl
  run-default (resource path f ∷ steps) a = run-default steps (step a (resource path f))
  run-default (default_to d ∷ steps) a = run-default steps (step a (default_to d))
  run-default (service rdef factory ∷ steps) a = run-default steps (step a (service rdef factory))
  run-default (wrapped mw ∷ steps) a = run-default steps (step a (wrapped mw))

  pub run-endpoint :
      (steps : List (Step R H P)) (a : App R H P) (f : Fut (Service H P) (Unit {0}))
      → (run a steps).endpoint f ≡ layered steps (a.endpoint f)
  unfolding add_resource default_resource add_service middleware
  run-endpoint [] a f = refl
  run-endpoint (resource path g ∷ steps) a f = run-endpoint steps (step a (resource path g)) f
  run-endpoint (default_to d ∷ steps) a f = run-endpoint steps (step a (default_to d)) f
  run-endpoint (service rdef factory ∷ steps) a f =
      run-endpoint steps (step a (service rdef factory)) f
  run-endpoint (wrapped mw ∷ steps) a f = run-endpoint steps (step a (wrapped mw)) f

  run-cells :
      (steps : List (Step R H P)) (a : App R H P) → (run a steps).cells ≡ a.cells ++ own steps
  unfolding add_resource default_resource add_service middleware
  run-cells [] a = sym (append_nil a.cells)
  run-cells (resource path f ∷ steps) a =
      run-cells steps (step a (resource path f)) ∙ append_assoc a.cells _ (own steps)
  run-cells (default_to d ∷ steps) a = run-cells steps (step a (default_to d))
  run-cells (service rdef factory ∷ steps) a = run-cells steps (step a (service rdef factory))
  run-cells (wrapped mw ∷ steps) a = run-cells steps (step a (wrapped mw))

  run-defaults :
      (steps : List (Step R H P)) (a : App R H P)
      → (run a steps).defaults
        ≡ unless (has_middleware steps) a.defaults ++ known (length a.cells) steps
  unfolding add_resource default_resource add_service middleware
  run-defaults [] a = sym (append_nil a.defaults)
  run-defaults (resource path f ∷ steps) a =
      run-defaults steps (step a (resource path f))
      ∙ ap₂ (λ xs n. xs ++ known n steps)
          (unless-append (has_middleware steps) a.defaults (length a.cells ∷ []))
          (length-append a.cells _ ∙ omega arith)
      ∙ append_assoc (unless (has_middleware steps) a.defaults) _
          (known (suc (length a.cells)) steps)
  run-defaults (default_to d ∷ steps) a = run-defaults steps (step a (default_to d))
  run-defaults (service rdef factory ∷ steps) a = run-defaults steps (step a (service rdef factory))
  run-defaults (wrapped mw ∷ steps) a =
      run-defaults steps (step a (wrapped mw))
      ∙ unless_nil (has_middleware steps) (known (length a.cells) steps)

  run-services :
      (steps : List (Step R H P)) (a : App R H P)
      → (run a steps).services ≡ a.services ++ registered (length a.cells) steps
  unfolding add_resource default_resource add_service middleware
  run-services [] a = sym (append_nil a.services)
  run-services (resource path f ∷ steps) a =
      run-services steps (step a (resource path f))
      ∙ ap
          (λ n.
            (a.services
              ++ (R.new_def path, resource_factory (f new_resource).routes (length a.cells)) ∷ [])
            ++ registered n steps)
          (length-append a.cells _ ∙ omega arith)
      ∙ append_assoc a.services _ (registered (suc (length a.cells)) steps)
  run-services (default_to d ∷ steps) a = run-services steps (step a (default_to d))
  run-services (service rdef factory ∷ steps) a =
      run-services steps (step a (service rdef factory))
      ∙ append_assoc a.services _ (registered (length a.cells) steps)
  run-services (wrapped mw ∷ steps) a = run-services steps (step a (wrapped mw))

  -- `fill_known` for a longer front, regrouped.
  fill_known_next :
      (d : Fut (Service H P) (Unit {0})) (steps : List (Step R H P)) (before : Cells H P)
      (x : Option (Fut (Service H P) (Unit {0})))
      → fill_all d (known (length (before ++ x ∷ [])) steps) ((before ++ x ∷ []) ++ own steps)
        ≡ (before ++ x ∷ []) ++ defaults_of (some d) steps
      → fill_all d (known (suc (length before)) steps) (before ++ x ∷ own steps)
        ≡ before ++ x ∷ defaults_of (some d) steps
  fill_known_next d steps before x h =
      ap₂ (λ n cells. fill_all d (known n steps) cells)
        (sym (length-append before (x ∷ []) ∙ omega arith))
        (sym (append_assoc before (x ∷ []) (own steps)))
      ∙ h
      ∙ append_assoc before (x ∷ []) (defaults_of (some d) steps)

  fill_known :
      (d : Fut (Service H P) (Unit {0})) (steps : List (Step R H P)) (before : Cells H P)
      → fill_all d (known (length before) steps) (before ++ own steps)
        ≡ before ++ defaults_of (some d) steps
  fill_known d [] before = refl
  fill_known d (resource path f ∷ steps) before =
      let x : Option (Fut (Service H P) (Unit {0})) = (f new_resource).default in
      let y : Option (Fut (Service H P) (Unit {0})) = or_else x (some d) in
      elim (Bool-cases (has_middleware steps)) [
        | inl more ↦
            rw more (fill_known_next d steps before x (fill_known d steps (before ++ x ∷ [])))
        | inr none_more ↦
            rw (none_more, fill-append d before x (own steps))
              (fill_known_next d steps before y (fill_known d steps (before ++ y ∷ [])))
      ]
  fill_known d (default_to e ∷ steps) before = fill_known d steps before
  fill_known d (service rdef factory ∷ steps) before = fill_known d steps before
  fill_known d (wrapped mw ∷ steps) before = fill_known d steps before

  own_alone : (steps : List (Step R H P)) → own steps ≡ defaults_of none steps
  own_alone [] = refl
  own_alone (resource path f ∷ steps) =
      ap₂ (λ x xs. x ∷ xs) (handed_on-none (has_middleware steps) (f new_resource).default)
        (own_alone steps)
  own_alone (default_to e ∷ steps) = own_alone steps
  own_alone (service rdef factory ∷ steps) = own_alone steps
  own_alone (wrapped mw ∷ steps) = own_alone steps

  cells_of :
      (steps : List (Step R H P)) (d : Option (Fut (Service H P) (Unit {0})))
      → fill_default d (known zero steps) (own steps) ≡ defaults_of d steps
  cells_of steps none = own_alone steps
  cells_of steps (some d) = fill_known d steps []

-- An application that is set up by any steps starts with every service in the order in which they
-- were registered, and each resource with its own default or, where it has none and no middleware
-- is registered after it, with the default that was set last, before or after the resource.
pub into_new_service-run :
    {R : RouterTypes} {H : HttpTypes} {P : Type 0} (steps : List (Step R H P))
    → into_new_service (run new steps) ≡ record {
      services = registered zero steps;
      cells = defaults_of (last_default none steps) steps;
    }
unfolding into_new_service
into_new_service-run {R} {H} {P} steps =
    ap₂ (λ services cells. record { services = services; cells = cells }) (run-services steps new)
      (ap₂
          (λ (d : Option (Fut (Service H P) (Unit {0}))) (cs : List ℕ × Cells H P).
            fill_default d cs.0 cs.1)
          (run-default steps new)
          (ap₂ (λ a b. (a, b))
            (run-defaults steps new ∙ unless_nil (has_middleware steps) (known zero steps))
            (run-cells steps new))
        ∙ cells_of steps (last_default none steps))
