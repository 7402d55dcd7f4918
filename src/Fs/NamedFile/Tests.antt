-- ===== src/Fs/NamedFile/Tests.antt =====
-- `NamedFile::respond_to` (src/fs.rs) on a small file, with small headers, and the theorems about
-- it there.
use actix_web.Prelude.{
  ◌↔◌, ◌+◌, ◌≤◌, ◌≡◌, refl, true, some, [], ◌∷◌, ◌++◌, ok, err, arith, take, drop,
}
use actix_web.Prelude.Text.{codes, trim, split}
use actix_web.Fs.Chunks.{reader}
use actix_web.Fs.Chunks.Delivery.{Delivers}
use actix_web.Fs.Range.{parse}
use actix_web.Fs.Range.Bounds.{parse-eq-nil_iff}
use actix_web.Fs.NamedFile.{
  default_config, Conditions, Response, items, respond_to, respond, tagged_headers, content_length,
  no_body, index_out_of_bounds,
}
use actix_web.Fs.NamedFile.Served.{respond_to-Delivers, respond_to_no_range, AsksNothing}
use actix_web.Fs.NamedFile.Conditional.{
  respond_to_cached, respond_to_stale, respond_to_ignores, respond_to-head, headers_of,
}
use actix_web.Fs.NamedFile.Unchanged.{Answered, Fails, Unchanged, respond_to-answered}
use actix_web.Fs.NamedFile.Setters.{set_all, retyped_result, respond_to-set_all}
use actix_web.Fs.NamedFile.Sample.{
  small_headers, six_bytes, six, plain, middle, partial, partial_answer,
}

respond_to-Delivers_example :
    (2 + 2 ≤ 6) × Delivers (λ n. n) (reader 2 2 six_bytes) (take 2 (drop 2 six_bytes))
respond_to-Delivers_example =
    respond_to-Delivers (λ n. n) default_config six middle partial (reader 2 2 six_bytes) refl
      (omega arith) partial_answer refl

parse_comma : parse (codes "bytes=,") 6 ≡ ok []
unfolding parse trim split
parse_comma = refl

respond_to_no_range_example :
    (respond_to default_config six (record plain { range = some (some (codes "bytes=,")) })
      ≡ err index_out_of_bounds)
    ↔ AsksNothing default_config six (record plain { range = some (some (codes "bytes=,")) })
respond_to_no_range_example =
    respond_to_no_range default_config six (record plain { range = some (some (codes "bytes=,")) })
      (omega arith)

comma_panics :
    respond_to default_config six (record plain { range = some (some (codes "bytes=,")) })
    ≡ err index_out_of_bounds
comma_panics =
    (respond_to_no_range default_config six (record plain { range = some (some (codes "bytes=,")) })
        (omega arith)).1
      (
        refl,
        refl,
        (some 126, refl),
        (parse-eq-nil_iff (codes "bytes=,") 6 (omega arith)).0 parse_comma,
      )

cached_answered :
    respond_to default_config six
      (record plain { if_none_match = some (items (5 ∷ 126 ∷ [])); has_if_none_match = true })
    ≡ ok (respond 304 (tagged_headers six (some 126) (some 100) ++ content_length 6 ∷ []) no_body)
cached_answered =
    respond_to_cached default_config six
      (record plain { if_none_match = some (items (5 ∷ 126 ∷ [])); has_if_none_match = true }) 126
      (5 ∷ 126 ∷ []) refl refl refl refl refl refl refl refl

other_tag_refused :
    respond_to default_config six (record plain { if_match = some (items (5 ∷ [])) })
    ≡ ok (respond 412 (tagged_headers six (some 126) (some 100) ++ content_length 6 ∷ []) no_body)
other_tag_refused =
    respond_to_stale default_config six (record plain { if_match = some (items (5 ∷ [])) }) 126
      (5 ∷ []) refl refl refl refl refl refl

abbrev tagless : Conditions small_headers
tagless = record plain { if_none_match = some (items (5 ∷ [])); has_if_none_match = true }

dates_ignored :
    respond_to default_config six (record tagless { if_modified_since = some 200 })
    ≡ respond_to default_config six tagless
dates_ignored = respond_to_ignores default_config six tagless (some 200) refl

head_answered :
    headers_of (respond_to default_config six (record middle { method = "HEAD" }))
    ≡ headers_of (respond_to default_config six (record middle { method = "GET" }))
head_answered = respond_to-head default_config six middle "GET" refl refl

respond_to-set_all_example :
    respond_to default_config (set_all six "text/html" "attachment" "br") middle
    ≡ retyped_result "text/html" "attachment" (respond_to default_config six middle)
respond_to-set_all_example =
    respond_to-set_all default_config six "text/html" "attachment" "br" middle

-- A tag that the second entry of the list matches.
abbrev known_tag : Conditions small_headers
known_tag = record plain { if_none_match = some (items (5 ∷ 126 ∷ [])); has_if_none_match = true }

respond_to-answered_example :
    (resp : Response small_headers) × (respond_to default_config six known_tag ≡ ok resp)
    × Answered resp.status
        (Fails (some 126) (some 100) known_tag)
        (Unchanged (some 126) (some 100) known_tag)
respond_to-answered_example =
    respond_to-answered default_config six known_tag (some 126) refl refl refl refl
