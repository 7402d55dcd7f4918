-- ===== src/DefaultHeaders/Tests.antt =====
-- Two defaults (src/middleware/defaultheaders.rs) for a response that has one of them.
use actix_web.Prelude.{
  ℕ, ◌==◌, ◌≡◌, refl, true, false, Option, none, some, List, [], ◌∷◌, ◌++◌, if◌then◌else◌, arith,
  ok,
}
use actix_web.Futures.{after}
use actix_web.DefaultHeaders.{HeaderMaps, DefaultHeaders, call, complete}
use actix_web.DefaultHeaders.Lookup.{call-get}

-- Headers with numbers for names and values, the last that was inserted first.
abbrev get : List (ℕ × ℕ) → ℕ → Option ℕ
get [] k = none
get ((l, v) ∷ m) k = let rest = get m k in if l == k then some v else rest

get-insert : (m : List (ℕ × ℕ)) (k v : ℕ) → get ((k, v) ∷ m) k ≡ some v
get-insert m k v = ground arith

get-insert-ne : (m : List (ℕ × ℕ)) (k l v : ℕ) → (k == l) ≡ false → get ((k, v) ∷ m) l ≡ get m l
get-insert-ne m k l v h = rw h refl

eq-true : (a b : ℕ) → (a == b) ≡ true → a ≡ b
eq-true a b h = ground arith

abbrev small : HeaderMaps
small = record {
  Name = ℕ;
  Value = ℕ;
  name_eq = λ a b. a == b;
  name_eq-true = eq-true;
  Map = List (ℕ × ℕ);
  empty = [];
  get = get;
  insert = λ m k v. (k, v) ∷ m;
  append = λ m k v. m ++ (k, v) ∷ [];
  iter = λ m. m;
  get-insert = get-insert;
  get-insert-ne = get-insert-ne;
  content_type_name = 0;
  octet_stream = 100;
  Response = List (ℕ × ℕ);
  headers = λ r. r;
  set_headers = λ r m. m;
  headers-set_headers = λ r m. refl;
}

abbrev defaults : DefaultHeaders small
defaults = record { ct = true; headers = (1, 11) ∷ (2, 12) ∷ [] }

call-get_example :
    (call small {E = Unit {0}} defaults (after 2 (ok ((1, 7) ∷ [])))
      ≡ after 2 (ok (complete small defaults ((1, 7) ∷ []))))
    × (get (complete small defaults ((1, 7) ∷ [])) 0 ≡ some 100)
call-get_example = call-get small 2 defaults ((1, 7) ∷ []) 0
