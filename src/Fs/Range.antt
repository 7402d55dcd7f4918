-- ===== src/Fs/Range.antt =====
-- `HttpRange::parse` of src/fs.rs.
pub mod Bounds
use actix_web.Prelude.{
  drop, ℕ, ◌-◌, ◌%◌, ◌^◌, Bool, true, false, ◌||◌, ◌&&◌, List, [], ◌∷◌, Option, none, some, ltb,
  if◌then◌else◌, is_empty, ℤ, pos, negsuc, ◌+ℤ◌, ◌-ℤ◌, ltb_ℤ, leb_ℤ, Result, ok, err, ◌>>=◌,
}
use actix_web.Prelude.Text.{Text, codes, starts_with, split, trim, parse_i64}

pub record HttpRange : Type 0 where
  pub start : ℕ
  pub length : ℕ

-- `size as i64`.
abbrev pub as_i64 : ℕ → ℤ
as_i64 n = if ltb n (2 ^ 63) then pos n else negsuc (2 ^ 64 - 1 - n)

-- `n as u64`.
abbrev pub as_u64 : ℤ → ℕ
as_u64 (pos n) = n % 2 ^ 64
as_u64 (negsuc n) = (2 ^ 64 - 1 - n) % 2 ^ 64

abbrev pub Unsatisfied : Type 0
Unsatisfied = Unit {0}

abbrev or_err : Option ℤ → Result ℤ Unsatisfied
or_err none = err tt
or_err (some n) = ok n

abbrev range : ℤ → ℤ → HttpRange
range start length = record { start = as_u64 start; length = as_u64 length }

-- "-n": the last n bytes.
pub suffix_range : ℤ → Text → Result (Option HttpRange × Bool) Unsatisfied
suffix_range size_sig end_str = do
  n ← or_err (parse_i64 end_str)
  let length = if ltb_ℤ size_sig n then size_sig else n
  ok (some (range (size_sig -ℤ length) length), false)

-- The length of "start-end", where an empty end is the end of the file.
pub span : ℤ → ℤ → Text → Result ℤ Unsatisfied
span size_sig start [] = ok (size_sig -ℤ start)
span size_sig start (c ∷ s) = do
  end ← or_err (parse_i64 (c ∷ s))
  let last = if leb_ℤ size_sig end then size_sig -ℤ pos 1 else end
  if ltb_ℤ end start then err tt else ok (last -ℤ start +ℤ pos 1)

-- "start-end"; the flag says that the range lies past the end of the file.
pub span_range : ℤ → Text → Text → Result (Option HttpRange × Bool) Unsatisfied
unfolding span
span_range size_sig start_str end_str = do
  start ← or_err (parse_i64 start_str)
  if ltb_ℤ start (pos 0)
      then err tt
      else if leb_ℤ size_sig start
      then ok (none, true)
      else (span size_sig start end_str >>= λ length. ok (some (range start length), false))

-- The closure's body after `ra.split('-')`; what a second '-' begins is not read.
abbrev spec_of_parts : ℤ → List Text → Result (Option HttpRange × Bool) Unsatisfied
spec_of_parts size_sig [] = err tt
spec_of_parts size_sig (start ∷ []) = err tt
spec_of_parts size_sig (start ∷ end ∷ _) =
    if is_empty (trim start)
    then suffix_range size_sig (trim end)
    else span_range size_sig (trim start) (trim end)

-- The closure over one element of the list, with what it writes to `no_overlap`.
pub parse_spec : ℤ → Text → Result (Option HttpRange × Bool) Unsatisfied
unfolding suffix_range span_range
parse_spec size_sig ra = spec_of_parts size_sig (split b'-' ra)

-- `.map(|x| x.trim()).filter(|x| !x.is_empty())`
pub trimmed : List Text → List Text
trimmed [] = []
trimmed (s ∷ ss) = let rest = trimmed ss in if is_empty (trim s) then rest else trim s ∷ rest

-- `.map(closure).collect()`, which stops at the first error; the flag is `no_overlap` so far.
pub collect : ℤ → List Text → Bool → Result (List (Option HttpRange) × Bool) Unsatisfied
unfolding parse_spec
collect size_sig [] no_overlap = ok ([], no_overlap)
collect size_sig (ra ∷ ras) no_overlap = parse_spec size_sig ra >>= λ found.
    collect size_sig ras (no_overlap || found.1) >>= λ rest. ok (found.0 ∷ rest.0, rest.1)

-- `.filter_map(|x| x)`
pub present : List (Option HttpRange) → List HttpRange
present [] = []
present (none ∷ rs) = present rs
present (some r ∷ rs) = r ∷ present rs

abbrev pub prefix_len : ℕ
prefix_len = 6

abbrev satisfied : List HttpRange → Bool → Result (List HttpRange) Unsatisfied
satisfied ranges no_overlap = if no_overlap && is_empty ranges then err tt else ok ranges

unfoldable pub parse : Text → ℕ → Result (List HttpRange) Unsatisfied
unfolding collect trimmed present
parse [] size = ok []
parse (c ∷ s) size =
    if starts_with (codes "bytes=") (c ∷ s)
    then (collect (as_i64 size) (trimmed (split b',' (drop prefix_len (c ∷ s)))) false >>= λ found.
        satisfied (present found.0) found.1)
    else err tt
