-- ===== src/DefaultHeaders/Lookup.antt =====
-- Which headers a response has behind `DefaultHeaders` (src/middleware/defaultheaders.rs).
use actix_web.Prelude.{
  Bool, is_some, ℕ, zero, suc, true, false, Option, none, some, List, [], ◌∷◌, if◌then◌else◌, ◌≡◌,
  sym, ◌∙◌, ap, refl, Bool-cases, inl, inr, Option-cases, ok,
}
use actix_web.Futures.{after, later}
use actix_web.DefaultHeaders.{
  HeaderMaps, DefaultHeaders, add_header, add_headers, add_content_type, complete, call,
}

abbrev pub or_else {ℓ} : {A : Type ℓ} → Option A → Option A → Option A
or_else (some a) b = some a
or_else none b = b

module _ (M : HeaderMaps) where
  -- The first of these headers of this name.
  abbrev pub first : List (M.Name × M.Value) → M.Name → Option M.Value
  first [] k = none
  first ((key, value) ∷ rest) k = if M.name_eq key k then some value else first rest k

  -- One header that is added.
  abbrev pub one : M.Name → M.Value → M.Name → Option M.Value
  one key value k = if M.name_eq key k then some value else none

  or_else-none : (o : Option M.Value) → o ≡ or_else o none
  or_else-none none = refl
  or_else-none (some v) = refl

  inserted :
      (m : M.Map) (key k : M.Name) (value : M.Value)
      → M.get m key ≡ none
      → M.get (M.insert m key value) k ≡ or_else (M.get m k) (one key value k)
  inserted m key k value h = elim (Bool-cases (M.name_eq key k)) [
    | inl same ↦
        let e : key ≡ k = M.name_eq-true key k same in
        rw (same, sym e, h) (M.get-insert m key value)
    | inr other ↦ rw other (M.get-insert-ne m key k value other ∙ or_else-none (M.get m k))
  ]

  kept :
      (m : M.Map) (key k : M.Name) (value own : M.Value)
      → M.get m key ≡ some own
      → M.get m k ≡ or_else (M.get m k) (one key value k)
  kept m key k value own h = elim (Bool-cases (M.name_eq key k)) [
    | inl same ↦ let e : key ≡ k = M.name_eq-true key k same in rw (sym e, h) refl
    | inr other ↦ rw other (or_else-none (M.get m k))
  ]

  add_header-get :
      (m : M.Map) (key k : M.Name) (value : M.Value)
      → M.get (add_header M m key value) k ≡ or_else (M.get m k) (one key value k)
  add_header-get m key k value = elim (Option-cases (M.get m key)) [
    | inl absent ↦
        let e : is_some (M.get m key) ≡ false = ap is_some absent in
        rw e (inserted m key k value absent)
    | inr (own, present) ↦
        let e : is_some (M.get m key) ≡ true = ap is_some present in
        rw e (kept m key k value own present)
  ]

  or_else-first :
      (o : Option M.Value) (key k : M.Name) (value : M.Value) (rest : List (M.Name × M.Value))
      → or_else (or_else o (one key value k)) (first rest k)
        ≡ or_else o (first ((key, value) ∷ rest) k)
  or_else-first (some own) key k value rest = refl
  or_else-first none key k value rest = elim (Bool-cases (M.name_eq key k)) [
    | inl same ↦ rw same refl
    | inr other ↦ rw other refl
  ]

  add_headers-get :
      (hs : List (M.Name × M.Value)) (m : M.Map) (k : M.Name)
      → M.get (add_headers M m hs) k ≡ or_else (M.get m k) (first hs k)
  unfolding add_headers
  add_headers-get [] m k = or_else-none (M.get m k)
  add_headers-get ((key, value) ∷ rest) m k =
      add_headers-get rest (add_header M m key value) k
      ∙ ap (λ o. or_else o (first rest k)) (add_header-get m key k value)
      ∙ or_else-first (M.get m k) key k value rest

  -- The default content type, where it is asked for.
  abbrev pub default_type : Bool → M.Name → Option M.Value
  default_type true k = one M.content_type_name M.octet_stream k
  default_type false k = none

  add_content_type-get :
      (ct : Bool) (m : M.Map) (k : M.Name)
      → M.get (add_content_type M ct m) k ≡ or_else (M.get m k) (default_type ct k)
  unfolding add_content_type
  add_content_type-get true m k = add_header-get m M.content_type_name k M.octet_stream
  add_content_type-get false m k = or_else-none (M.get m k)

  or_else-or_else : (a b c : Option M.Value) → or_else (or_else a b) c ≡ or_else a (or_else b c)
  or_else-or_else none b c = refl
  or_else-or_else (some v) b c = refl

  complete-get :
      (d : DefaultHeaders M) (res : M.Response) (k : M.Name)
      → M.get (M.headers (complete M d res)) k
        ≡ or_else
            (M.get (M.headers res) k)
            (or_else (first (M.iter d.headers) k) (default_type d.ct k))
  unfolding complete
  complete-get d res k =
      ap (λ m. M.get m k) (M.headers-set_headers res _)
      ∙ add_content_type-get d.ct (add_headers M (M.headers res) (M.iter d.headers)) k
      ∙ ap (λ o. or_else o (default_type d.ct k))
          (add_headers-get (M.iter d.headers) (M.headers res) k)
      ∙ or_else-or_else (M.get (M.headers res) k) (first (M.iter d.headers) k) (default_type d.ct k)

  call-after :
      {E : Type 0} (n : ℕ) (d : DefaultHeaders M) (res : M.Response)
      → call M {E = E} d (after n (ok res)) ≡ after n (ok (complete M d res))
  unfolding call
  call-after zero d res = refl
  call-after (suc n) d res = ap later (call-after n d res)

-- A response that the wrapped service gives after n polls comes after n polls, and for every name
-- its first value is its own, or else the first default of this name, or else, for the content type
-- where a default type was asked for, "application/octet-stream".
pub call-get :
    (M : HeaderMaps) {E : Type 0} (n : ℕ) (d : DefaultHeaders M) (res : M.Response) (k : M.Name)
    → (call M {E = E} d (after n (ok res)) ≡ after n (ok (complete M d res)))
      × (M.get (M.headers (complete M d res)) k
          ≡ or_else
              (M.get (M.headers res) k)
              (or_else (first M (M.iter d.headers) k) (default_type M d.ct k)))
call-get M n d res k = (call-after M n d res, complete-get M d res k)
