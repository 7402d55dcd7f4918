-- ===== src/Fs/Segments/Safety.antt =====
-- What `PathBuf::from_request` of src/fs.rs lets through: no path leaves the served directory.
use mathlib.Core.Path.{subst}
use actix_web.Prelude.{
  ◌≡◌, ◌≢◌, refl, false, List, [], ◌∷◌, Result, ok, err, All, All-append, arith, is_empty,
  Bool-cases, Option-cases, inl, inr, none,
}
use actix_web.Prelude.Text.{Text, codes, same, starts_with, ends_with_char, split}
use actix_web.Prelude.Text.Laws.{split-NoSep}
use actix_web.Fs.Segments.{
  PathBuf, UriSegmentError, pop, refused, add_segment, add_segments, from_request, continue,
}

-- A component that is one part of a Unix path, and names neither the parent, the current
-- directory nor a hidden file.
pub record IsSafe (s : Text) : Type 0 where
  pub full : is_empty s ≡ false
  pub no_slash : All (λ c. c ≢ b'/') s
  pub no_dot : starts_with (codes ".") s ≡ false
  pub no_star : starts_with (codes "*") s ≡ false
  pub no_colon : ends_with_char b':' s ≡ false
  pub no_gt : ends_with_char b'>' s ≡ false
  pub no_lt : ends_with_char b'<' s ≡ false

pub accepted-IsSafe :
    (s : Text) → is_empty s ≡ false → All (λ c. c ≢ b'/') s → refused s ≡ none → IsSafe s
unfolding refused
accepted-IsSafe s full no_slash accepted = record {
  full = full;
  no_slash = no_slash;
  no_dot = ground arith;
  no_star = ground arith;
  no_colon = ground arith;
  no_gt = ground arith;
  no_lt = ground arith;
}

pub IsSafe-accepted : (s : Text) → IsSafe s → refused s ≡ none
unfolding refused
IsSafe-accepted s h = ground arith

pub IsSafe-down : (s : Text) → IsSafe s → same s (codes "..") ≡ false
IsSafe-down [] h = refl
IsSafe-down (c ∷ s) h = ground (arith, h.no_dot)

All-pop : (buf : PathBuf) → All IsSafe buf → All IsSafe (pop buf)
unfolding pop
All-pop [] h = tt
All-pop (s ∷ []) h = tt
All-pop (s ∷ t ∷ buf) (p, h) = (p, All-pop (t ∷ buf) h)

abbrev OkSafe : Result PathBuf UriSegmentError → Type 0
OkSafe (ok buf) = All IsSafe buf
OkSafe (err e) = Unit

add_segment-OkSafe :
    (buf : PathBuf) (s : Text) → All IsSafe buf → All (λ c. c ≢ b'/') s → OkSafe (add_segment buf s)
add_segment-OkSafe buf s h no_slash = elim (Bool-cases (same s (codes ".."))) [
  | inl up ↦ rw up (All-pop buf h)
  | inr down ↦ elim (Option-cases (refused s)) [
    | inr (e, bad) ↦ rw (down, bad) tt
    | inl good ↦ elim (Bool-cases (is_empty s)) [
      | inl empty ↦ rw (down, good, empty) h
      | inr full ↦
          rw (down, good, full)
            (All-append IsSafe buf (s ∷ []) h (accepted-IsSafe s full no_slash good, tt))
    ]
  ]
]

add_segments-OkSafe :
    (buf : PathBuf) (ss : List Text)
    → All IsSafe buf
    → All (All (λ c. c ≢ b'/')) ss
    → OkSafe (add_segments buf ss)
unfolding add_segments
add_segments-OkSafe buf [] h k = h
add_segments-OkSafe buf (s ∷ ss) h (no_slash, k) =
    go (add_segment buf s) (add_segment-OkSafe buf s h no_slash)
      (λ buf' p. add_segments-OkSafe buf' ss p k)
  where
    go :
        (r : Result PathBuf UriSegmentError)
        → OkSafe r
        → ((buf' : PathBuf) → All IsSafe buf' → OkSafe (add_segments buf' ss))
        → OkSafe (continue r (λ buf'. add_segments buf' ss))
    go (ok buf') p rec = rec buf' p
    go (err e) p rec = tt

-- Every component of a path that is accepted is non-empty and holds no slash, does not begin with
-- "." or "*" and does not end with ":", ">" or "<": joined to a directory, the path stays below it.
pub from_request-IsSafe :
    (path : Text) {buf : PathBuf} → from_request path ≡ ok buf → All IsSafe buf
unfolding from_request
from_request-IsSafe path e =
    subst OkSafe e (add_segments-OkSafe [] (split b'/' path) tt (split-NoSep b'/' path))
