-- ===== src/Fs/Segments.antt =====
-- `impl FromRequest for PathBuf` of src/fs.rs, on Unix. A `PathBuf` that is built from relative
-- parts is the list of its components.
pub mod Safety
pub mod Paths
use actix_web.Prelude.{
  ℕ, Bool, List, [], ◌∷◌, ◌++◌, Result, ok, err, if◌then◌else◌, is_empty, Option, none, some,
}
use actix_web.Prelude.Text.{Text, codes, same, starts_with, ends_with_char, split}

pub data UriSegmentError : Type 0 where
  bad_start : ℕ → UriSegmentError
  bad_char : ℕ → UriSegmentError
  bad_end : ℕ → UriSegmentError

abbrev pub PathBuf : Type 0
PathBuf = List Text

-- `PathBuf::pop`: an empty path stays empty.
unfoldable pub pop : PathBuf → PathBuf
pop [] = []
pop (s ∷ []) = []
pop (s ∷ t ∷ buf) = s ∷ pop (t ∷ buf)

-- `PathBuf::push` of a relative part with no separator.
abbrev pub push : PathBuf → Text → PathBuf
push buf segment = buf ++ segment ∷ []

-- The refusals of one segment, in the order of the source. `cfg!(windows)` is false.
unfoldable pub refused : Text → Option UriSegmentError
refused segment =
    if starts_with (codes ".") segment
    then some (bad_start b'.')
    else if starts_with (codes "*") segment
    then some (bad_start b'*')
    else if ends_with_char b':' segment
    then some (bad_end b':')
    else if ends_with_char b'>' segment
    then some (bad_end b'>')
    else if ends_with_char b'<' segment
    then some (bad_end b'<')
    else none

-- One round of the loop.
abbrev pub add_segment : PathBuf → Text → Result PathBuf UriSegmentError
add_segment buf segment =
    if same segment (codes "..") then ok (pop buf) else elim (refused segment) [
      | some e ↦ err e
      | none ↦ if is_empty segment then ok buf else ok (push buf segment)
    ]

abbrev pub continue {ℓ κ ν} :
    {A : Type ℓ} {B : Type κ} {E : Type ν} → Result A E → (A → Result B E) → Result B E
continue (ok a) f = f a
continue (err e) f = err e

-- The loop over the segments.
unfoldable pub add_segments : PathBuf → List Text → Result PathBuf UriSegmentError
unfolding refused pop
add_segments buf [] = ok buf
add_segments buf (segment ∷ segments) =
    continue (add_segment buf segment) (λ buf'. add_segments buf' segments)

-- `from_request`, given `req.match_info().path()`.
unfoldable pub from_request : Text → Result PathBuf UriSegmentError
unfolding add_segments
from_request path_str = add_segments [] (split b'/' path_str)
