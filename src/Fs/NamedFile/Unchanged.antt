-- ===== src/Fs/NamedFile/Unchanged.antt =====
-- When `NamedFile::respond_to` (src/fs.rs) answers that a file has not changed, or that a precondition
-- has failed.
use text.Mathlib.Text.{◌==◌ as str_eq}
use mathlib.Core.Path.{subst}
use actix_web.Prelude.{
  String, sym, ℕ, ◌≡◌, refl, Bool, true, false, not, Option, none, some, List, [], ◌∷◌, ok, arith,
  Bool-cases, inl, inr, if◌then◌else◌, ◌==◌, ◌⊎◌, ◌↔◌,
}
use actix_web.Fs.NamedFile.{
  HeaderTypes, StaticFileConfig, NamedFile, Conditions, Tags, any, items, Response, respond_to,
  serve, serve_range, any_match, none_match, precondition_failed, not_modified, has_tag, both,
  last_modified_of, tagged_headers, Header,
}
use actix_web.Fs.NamedFile.Served.{tag_of}

-- One of these tags is equal to the file's.
abbrev pub Matches {ℓ} : {E : Type ℓ} → (E → E → Bool) → E → List E → Type 0
Matches eq tag [] = ⊥
Matches eq tag (item ∷ rest) = (eq item tag ≡ true) ⊎ Matches eq tag rest

-- The file was modified after the time of the header, of times that both are there.
abbrev pub Later : {D : Type 0} → (D → D → Bool) → Option D → Option D → Type 0
Later after (some m) (some since) = after m since ≡ true
Later after (some m) none = ⊥
Later after none since = ⊥

abbrev pub NotLater : {D : Type 0} → (D → D → Bool) → Option D → Option D → Type 0
NotLater after (some m) (some since) = after m since ≡ false
NotLater after (some m) none = ⊥
NotLater after none since = ⊥

-- That a test says whether something holds.
abbrev Tells : Bool → Type 0 → Type 0
Tells b P = ((b ≡ true) × P) ⊎ ((b ≡ false) × (¬ P))

has_tag-Matches :
    {E : Type 0} (eq : E → E → Bool) (tag : E) (list : List E)
    → Tells (has_tag eq list tag) (Matches eq tag list)
has_tag-Matches eq tag [] = inr (refl, λ h. h)
has_tag-Matches eq tag (item ∷ rest) = elim (Bool-cases (eq item tag)) [
  | inl same ↦ rw same (inl (refl, inl refl))
  | inr other ↦ elim (has_tag-Matches eq tag rest) [
    | inl (h, m) ↦ rw (other, h) (inl (refl, inr m))
    | inr (h, n) ↦ rw (other, h) (inr (refl, λ m. elim m [ inl e ↦ cc | inr m ↦ n m ]))
  ]
]

both-Later :
    {D : Type 0} (after : D → D → Bool) (m since : Option D)
    → Tells (both after m since) (Later after m since)
both-Later after none since = inr (refl, λ h. h)
both-Later after (some m) none = inr (refl, λ h. h)
both-Later after (some m) (some since) = elim (Bool-cases (after m since)) [
  | inl h ↦ rw h (inl (refl, refl))
  | inr h ↦ rw h (inr (refl, λ e. cc))
]

both-NotLater :
    {D : Type 0} (after : D → D → Bool) (m since : Option D)
    → Tells (both (λ m since. not (after m since)) m since) (NotLater after m since)
both-NotLater after none since = inr (refl, λ h. h)
both-NotLater after (some m) none = inr (refl, λ h. h)
both-NotLater after (some m) (some since) = elim (Bool-cases (after m since)) [
  | inl h ↦ rw h (inr (refl, λ e. cc))
  | inr h ↦ rw h (inl (refl, refl))
]

module _ {T : HeaderTypes} where
  open T use {HttpDate, EntityTag}

  -- If-Match is there, is not `*`, and lists no tag of the file.
  abbrev pub NoMatch : Option EntityTag → Option (Tags T) → Type 0
  NoMatch tag none = ⊥
  NoMatch tag (some any) = ⊥
  NoMatch none (some (items list)) = Unit
  NoMatch (some tag) (some (items list)) = ¬ Matches T.strong_eq tag list

  -- If-None-Match is `*`, or lists the tag of the file.
  abbrev pub SomeMatch : Option EntityTag → Option (Tags T) → Type 0
  SomeMatch tag none = ⊥
  SomeMatch tag (some any) = Unit
  SomeMatch none (some (items list)) = ⊥
  SomeMatch (some tag) (some (items list)) = Matches T.weak_eq tag list

  -- A precondition of the request fails.
  abbrev pub Fails : Option EntityTag → Option HttpDate → Conditions T → Type 0
  Fails tag modified req = NoMatch tag req.if_match ⊎ Later T.after modified req.if_unmodified_since

  -- The client has the file already; If-Modified-Since counts only without an If-None-Match.
  abbrev pub Unchanged : Option EntityTag → Option HttpDate → Conditions T → Type 0
  Unchanged tag modified req =
      SomeMatch tag req.if_none_match
      ⊎ ((req.has_if_none_match ≡ false) × NotLater T.after modified req.if_modified_since)

  any_match-NoMatch :
      (tag : Option EntityTag) (o : Option (Tags T)) → Tells (not (any_match tag o)) (NoMatch tag o)
  unfolding any_match
  any_match-NoMatch tag none = inr (refl, λ h. h)
  any_match-NoMatch tag (some any) = inr (refl, λ h. h)
  any_match-NoMatch none (some (items list)) = inl (refl, tt)
  any_match-NoMatch (some tag) (some (items list)) = elim (has_tag-Matches T.strong_eq tag list) [
    | inl (h, m) ↦ rw h (inr (refl, λ n. n m))
    | inr (h, n) ↦ rw h (inl (refl, n))
  ]

  none_match-SomeMatch :
      (tag : Option EntityTag) (o : Option (Tags T))
      → Tells (not (none_match tag o)) (SomeMatch tag o)
  unfolding none_match
  none_match-SomeMatch tag none = inr (refl, λ h. h)
  none_match-SomeMatch tag (some any) = inl (refl, tt)
  none_match-SomeMatch none (some (items list)) = inr (refl, λ h. h)
  none_match-SomeMatch (some tag) (some (items list)) = elim (has_tag-Matches T.weak_eq tag list) [
    | inl (h, m) ↦ rw h (inl (refl, m))
    | inr (h, n) ↦ rw h (inr (refl, n))
  ]

  precondition_failed-Fails :
      (tag : Option EntityTag) (modified : Option HttpDate) (req : Conditions T)
      → Tells (precondition_failed tag modified req) (Fails tag modified req)
  unfolding precondition_failed
  precondition_failed-Fails tag modified req = elim (any_match-NoMatch tag req.if_match) [
    | inl (h, m) ↦ rw h (inl (refl, inl m))
    | inr (h, n) ↦ elim (both-Later T.after modified req.if_unmodified_since) [
      | inl (k, m) ↦ rw (h, k) (inl (refl, inr m))
      | inr (k, l) ↦ rw (h, k) (inr (refl, λ f. elim f [ inl m ↦ n m | inr m ↦ l m ]))
    ]
  ]

  not_modified-Unchanged :
      (tag : Option EntityTag) (modified : Option HttpDate) (req : Conditions T)
      → Tells (not_modified tag modified req) (Unchanged tag modified req)
  unfolding not_modified
  not_modified-Unchanged tag modified req = elim (none_match-SomeMatch tag req.if_none_match) [
    | inl (h, m) ↦ rw h (inl (refl, inl m))
    | inr (h, n) ↦ elim (Bool-cases req.has_if_none_match) [
      | inl k ↦ rw (h, k) (inr (refl, λ u. elim u [ inl m ↦ n m | inr p ↦ cc ]))
      | inr k ↦ elim (both-NotLater T.after modified req.if_modified_since) [
        | inl (l, m) ↦ rw (h, k, l) (inl (refl, inr (refl, m)))
        | inr (l, o) ↦ rw (h, k, l) (inr (refl, λ u. elim u [ inl m ↦ n m | inr p ↦ o p.1 ]))
      ]
    ]
  ]

-- The status of an answer, by whether a precondition fails and by whether the file is unchanged.
abbrev pub Answered : ℕ → Type 0 → Type 0 → Type 0
Answered status F U =
    ((status ≡ 412) ↔ F) × ((status ≡ 304) ↔ ((¬ F) × U)) × ((status ≡ 200) ↔ ((¬ F) × (¬ U)))

answered :
    {F U : Type 0} (failed unchanged : Bool)
    → Tells failed F
    → Tells unchanged U
    → Answered (if failed then 412 else if unchanged then 304 else 200) F U
answered failed unchanged (inl (h, f)) t = rw h (
  (λ e. f, λ g. refl),
  (λ e. absurd (omega arith), λ p. absurd (p.0 f)),
  (λ e. absurd (omega arith), λ p. absurd (p.0 f)),
)
answered failed unchanged (inr (h, n)) (inl (k, u)) =
    rw (h, k)
      (
        (λ e. absurd (omega arith), λ f. absurd (n f)),
        (λ e. (n, u), λ p. refl),
        (λ e. absurd (omega arith), λ p. absurd (p.1 u)),
      )
answered failed unchanged (inr (h, n)) (inr (k, m)) =
    rw (h, k)
      (
        (λ e. absurd (omega arith), λ f. absurd (n f)),
        (λ e. absurd (omega arith), λ p. absurd (m p.1)),
        (λ e. (n, m), λ p. refl),
      )

serve_status :
    {T : HeaderTypes} (f : NamedFile T) (method : String) (failed unchanged : Bool)
    (headers : List (Header T))
    → (serve f method failed unchanged headers f.len 0).status
      ≡ (if failed then 412 else if unchanged then 304 else 200)
unfolding serve
serve_status f method true unchanged headers = refl
serve_status f method false true headers = refl
serve_status f method false false headers = elim (Bool-cases (str_eq method "HEAD")) [
  | inl head ↦ rw head refl
  | inr other ↦ let whole : (f.len == f.len) ≡ true = ground arith in rw (other, whole) refl
]

abbrev pub modified_of : {T : HeaderTypes} → StaticFileConfig → NamedFile T → Option T.HttpDate
modified_of {T} c f = if c.is_use_last_modifier then last_modified_of T f.modified else none

-- A file with the default status 200 whose tag can be computed, and a request by an allowed method
-- without a Range header: the answer is 412 exactly if a precondition fails, which is an If-Match that
-- is no `*` and lists no strong match for the file's tag, or an If-Unmodified-Since before the file's
-- modification; it is 304 exactly if none fails and the client has the file already, by an
-- If-None-Match that is `*` or lists a weak match, or, without If-None-Match, by an If-Modified-Since
-- that is not before the modification; and it is 200 exactly if neither is so.
pub respond_to-answered :
    {T : HeaderTypes} (c : StaticFileConfig) (f : NamedFile T) (req : Conditions T)
    (tag : Option T.EntityTag)
    → f.status_code ≡ 200
    → c.is_method_allowed req.method ≡ true
    → tag_of c f ≡ ok tag
    → req.range ≡ none
    → (resp : Response T) × (respond_to c f req ≡ ok resp)
      × Answered resp.status (Fails tag (modified_of c f) req) (Unchanged tag (modified_of c f) req)
unfolding respond_to serve_range
respond_to-answered {T = T} c f req tag status allowed tagged range =
    let plain : (f.status_code == 200) ≡ true = ground arith in
    let failed : Bool = precondition_failed tag (modified_of c f) req in
    let unchanged : Bool = not_modified tag (modified_of c f) req in
    let headers : List (Header T) = tagged_headers f tag (modified_of c f) in
    (
      serve f req.method failed unchanged headers f.len 0,
      rw (plain, allowed, tagged, range) refl,
      subst
          (λ n. Answered n (Fails tag (modified_of c f) req) (Unchanged tag (modified_of c f) req))
          (sym (serve_status f req.method failed unchanged headers))
          (answered failed unchanged (precondition_failed-Fails tag (modified_of c f) req)
            (not_modified-Unchanged tag (modified_of c f) req)),
    )
