-- ===== src/Fs/Segments/Paths.antt =====
-- `PathBuf::from_request` of src/fs.rs as a function of whole paths: printing a path and reading
-- it again, "..", and which segment is reported.
use actix_web.Prelude.{
  ◌≡◌, ◌≢◌, ◌∙◌, refl, ap, sym, List, [], ◌∷◌, ◌++◌, Result, ok, err, All, arith, is_empty,
  Bool-cases, Option-cases, inl, inr, none, some, Option, if◌then◌else◌,
}
use mathlib.Core.List.{append_assoc, append-nil}
use actix_web.Prelude.Text.{Text, codes, same, split}
use actix_web.Fs.Segments.{
  PathBuf, UriSegmentError, pop, push, refused, add_segment, add_segments, from_request, continue,
}
use actix_web.Fs.Segments.Safety.{IsSafe, IsSafe-accepted, IsSafe-down}

-- A path as Unix prints it.
abbrev pub join : PathBuf → Text
join [] = []
join (s ∷ []) = s
join (s ∷ t ∷ buf) = s ++ (b'/' ∷ join (t ∷ buf))

split_alone : (s : Text) → All (λ c. c ≢ b'/') s → split b'/' s ≡ s ∷ []
unfolding split
split_alone [] h = refl
split_alone (c ∷ s) (p, h) = ground (arith, split_alone s h)

split_joined :
    (s t : Text) → All (λ c. c ≢ b'/') s → split b'/' (s ++ (b'/' ∷ t)) ≡ s ∷ split b'/' t
unfolding split
split_joined [] t h = refl
split_joined (c ∷ s) t (p, h) = ground (arith, split_joined s t h)

split-join :
    (s : Text) (buf : PathBuf) → All IsSafe (s ∷ buf) → split b'/' (join (s ∷ buf)) ≡ s ∷ buf
split-join s [] (h, _) = split_alone s h.no_slash
split-join s (t ∷ buf) (h, k) =
    split_joined s (join (t ∷ buf)) h.no_slash ∙ ap (λ r. s ∷ r) (split-join t buf k)

add_segment_of_IsSafe : (buf : PathBuf) (s : Text) → IsSafe s → add_segment buf s ≡ ok (push buf s)
add_segment_of_IsSafe buf s h = rw (IsSafe-down s h, IsSafe-accepted s h, h.full)

add_segments_of_IsSafe : (buf ss : PathBuf) → All IsSafe ss → add_segments buf ss ≡ ok (buf ++ ss)
unfolding add_segments
add_segments_of_IsSafe buf [] h = ap ok (sym (append-nil buf))
add_segments_of_IsSafe buf (s ∷ ss) (p, h) =
    rw (add_segment_of_IsSafe buf s p)
      (add_segments_of_IsSafe (push buf s) ss h ∙ ap ok (append_assoc buf (s ∷ []) ss))

from_request_root : from_request [] ≡ ok []
unfolding from_request split
from_request_root = refl

-- A path of safe components, printed with "/" between them, is read as itself.
pub from_request-join : (buf : PathBuf) → All IsSafe buf → from_request (join buf) ≡ ok buf
unfolding from_request
from_request-join [] h = from_request_root
from_request-join (s ∷ buf) h = rw (split-join s buf h) (add_segments_of_IsSafe [] (s ∷ buf) h)

pop-push : (buf : PathBuf) (s : Text) → pop (push buf s) ≡ buf
unfolding pop
pop-push [] s = refl
pop-push (t ∷ []) s = refl
pop-push (t ∷ u ∷ buf) s = ap (λ r. t ∷ r) (pop-push (u ∷ buf) s)

-- A safe segment and the ".." behind it cancel, wherever they stand among the segments.
pub add_segments-up :
    (buf : PathBuf) (before after : List Text) (s : Text)
    → IsSafe s
    → add_segments buf (before ++ (s ∷ codes ".." ∷ after)) ≡ add_segments buf (before ++ after)
unfolding add_segments
add_segments-up buf [] after s h = rw (add_segment_of_IsSafe buf s h, pop-push buf s)
add_segments-up buf (b ∷ before) after s h =
    go (add_segment buf b) (λ buf'. add_segments-up buf' before after s h)
  where
    go :
        (r : Result PathBuf UriSegmentError)
        → ((buf' : PathBuf)
            → add_segments buf' (before ++ (s ∷ codes ".." ∷ after))
              ≡ add_segments buf' (before ++ after))
        → continue r (λ buf'. add_segments buf' (before ++ (s ∷ codes ".." ∷ after)))
          ≡ continue r (λ buf'. add_segments buf' (before ++ after))
    go (ok buf') rec = rec buf'
    go (err e) rec = refl

-- The first segment, other than "..", that is refused.
pub first_refused : List Text → Option UriSegmentError
first_refused [] = none
first_refused (s ∷ ss) =
    let rest = first_refused ss in
    if same s (codes "..") then rest else elim (refused s) [ some e ↦ some e | none ↦ rest ]

abbrev pub error {ℓ κ} : {A : Type ℓ} {E : Type κ} → Result A E → Option E
error (ok a) = none
error (err e) = some e

add_segments-error :
    (buf : PathBuf) (ss : List Text) → error (add_segments buf ss) ≡ first_refused ss
unfolding add_segments first_refused
add_segments-error buf [] = refl
add_segments-error buf (s ∷ ss) = elim (Bool-cases (same s (codes ".."))) [
  | inl up ↦ rw up (add_segments-error (pop buf) ss)
  | inr down ↦ elim (Option-cases (refused s)) [
    | inr (e, bad) ↦ rw (down, bad) refl
    | inl good ↦ elim (Bool-cases (is_empty s)) [
      | inl empty ↦ rw (down, good, empty) (add_segments-error buf ss)
      | inr full ↦ rw (down, good, full) (add_segments-error (push buf s) ss)
    ]
  ]
]

-- A path is refused exactly when one of its segments is, ".." apart, with the first one's error;
-- every other path is accepted.
pub from_request-error : (path : Text) → error (from_request path) ≡ first_refused (split b'/' path)
unfolding from_request
from_request-error path = add_segments-error [] (split b'/' path)
