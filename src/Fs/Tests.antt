-- ===== src/Fs/Tests.antt =====
-- Runs of `HttpRange::parse` and `PathBuf::from_request` (src/fs.rs) on inputs like those of the
-- file's own tests, and the theorems about them at such inputs.
use actix_web.Prelude.{ℕ, ◌≡◌, ◌↔◌, refl, ok, err, [], ◌∷◌, All, arith, take, drop, ◌++◌}
use actix_web.Prelude.Text.{codes, parse_i64, trim, split}
use actix_web.Fs.Range.{parse, HttpRange}
use actix_web.Fs.Range.Bounds.{parse-Fits, parse-eq-nil_iff, Fits, NamesNone}
use actix_web.Fs.Segments.{from_request, add_segments, bad_start}
use actix_web.Fs.Segments.Safety.{IsSafe, from_request-IsSafe}
use actix_web.Fs.Segments.Paths.{
  join, from_request-join, from_request-error, add_segments-up, first_refused, error,
}
use actix_web.Fs.Chunks.{reader, failed, unexpected_eof}
use actix_web.Fs.Chunks.Delivery.{Delivers, Stops, reader-Delivers}
use actix_web.Fs.Chunks.Truncated.{reader-Stops}

abbrev range : ℕ → ℕ → HttpRange
range start length = record { start = start; length = length }

parse_two : parse (codes "bytes=0-9, 10-12") 100 ≡ ok (range 0 10 ∷ range 10 3 ∷ [])
unfolding parse trim split parse_i64
parse_two = refl

parse_lax :
    parse (codes "bytes=   1 -2   ,  4- 5, 7 - 8 , ,,") 11
    ≡ ok (range 1 2 ∷ range 4 2 ∷ range 7 2 ∷ [])
unfolding parse trim split parse_i64
parse_lax = refl

parse_past : parse (codes "bytes=100-") 100 ≡ err tt
unfolding parse trim split parse_i64
parse_past = refl

parse_backwards : parse (codes "bytes=0-2,5-4") 10 ≡ err tt
unfolding parse trim split parse_i64
parse_backwards = refl

parse_suffix : parse (codes "bytes=0-0,-1") 10_000 ≡ ok (range 0 1 ∷ range 9999 1 ∷ [])
unfolding parse trim split parse_i64
parse_suffix = refl

parse_none : parse (codes "bytes=,") 20 ≡ ok []
unfolding parse trim split parse_i64
parse_none = refl

from_request_up :
    from_request (codes "/a/../css//site.css") ≡ ok (codes "css" ∷ codes "site.css" ∷ [])
unfolding from_request split
from_request_up = refl

from_request_hidden : from_request (codes "/a/.git/*") ≡ err (bad_start b'.')
unfolding from_request split
from_request_hidden = refl

parse-Fits_example : All (Fits 100) (range 0 10 ∷ range 10 3 ∷ [])
parse-Fits_example = parse-Fits (codes "bytes=0-9, 10-12") 100 (omega arith) parse_two

parse-eq-nil_iff_example : (parse (codes "bytes=,") 20 ≡ ok []) ↔ NamesNone (codes "bytes=,")
parse-eq-nil_iff_example = parse-eq-nil_iff (codes "bytes=,") 20 (omega arith)

from_request-IsSafe_example : All IsSafe (codes "css" ∷ codes "site.css" ∷ [])
from_request-IsSafe_example = from_request-IsSafe (codes "/a/../css//site.css") from_request_up

css-IsSafe : IsSafe (codes "css")
css-IsSafe = ground arith

site-IsSafe : IsSafe (codes "site.css")
site-IsSafe = ground arith

from_request-join_example :
    from_request (join (codes "css" ∷ codes "site.css" ∷ []))
    ≡ ok (codes "css" ∷ codes "site.css" ∷ [])
from_request-join_example =
    from_request-join (codes "css" ∷ codes "site.css" ∷ []) (css-IsSafe, (site-IsSafe, tt))

dots_refused :
    error (from_request (codes "/a/.git/*")) ≡ first_refused (split b'/' (codes "/a/.git/*"))
dots_refused = from_request-error (codes "/a/.git/*")

segments_up :
    add_segments [] ((codes "img" ∷ []) ++ (codes "css" ∷ codes ".." ∷ codes "js" ∷ []))
    ≡ add_segments [] ((codes "img" ∷ []) ++ (codes "js" ∷ []))
segments_up = add_segments-up [] (codes "img" ∷ []) (codes "js" ∷ []) (codes "css") css-IsSafe

reader-Delivers_example :
    Delivers (λ n. n) (reader 2 3 (codes "abcdefg")) (take 3 (drop 2 (codes "abcdefg")))
reader-Delivers_example = reader-Delivers (λ n. n) 2 3 (codes "abcdefg") (omega arith) (omega arith)

-- Four bytes were promised, of which three are there.
reader-Stops_example :
    Stops (failed unexpected_eof) (λ n. n) (reader 1 4 (10 ∷ 11 ∷ 12 ∷ 13 ∷ [])) (11 ∷ 12 ∷ 13 ∷ [])
reader-Stops_example =
    reader-Stops (λ n. n) 1 4 (10 ∷ 11 ∷ 12 ∷ 13 ∷ []) (omega arith) (omega arith) (omega arith)
      (omega arith)
