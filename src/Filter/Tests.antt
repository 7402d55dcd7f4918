-- ===== src/Filter/Tests.antt =====
-- The laws of filters (src/filter.rs) at the filters of the file's own tests.
use actix_web.Prelude.{◌≡◌, refl, true, false, ◌&&◌, ◌||◌, none}
use actix_web.Prelude.Text.{codes}
use actix_web.Http.{HttpRequest}
use actix_web.Filter.{
  Filters, nil, cons, any_filter, all_filter, not_filter, header_filter, check, get, post, any_or,
  all_and,
}
use actix_web.Filter.Laws.{negated, check-de_morgan, check-builders}

abbrev request : HttpRequest
request = record {
  method = "POST";
  path = "/";
  query = none;
  header = λ name. none;
  match_path = codes "/";
}

abbrev methods : Filters
methods = cons get (cons post nil)

any_post : check (any_filter methods) request ≡ true
unfolding check
any_post = refl

all_post : check (all_filter methods) request ≡ false
unfolding check
all_post = refl

no_header : check (header_filter "transfer-encoding" (codes "chunked")) request ≡ false
unfolding check
no_header = refl

not_either :
    (check (not_filter (any_filter methods)) request ≡ check (all_filter (negated methods)) request)
    × (check (not_filter (all_filter methods)) request
        ≡ check (any_filter (negated methods)) request)
not_either = check-de_morgan methods request

built :
    (check (any_or methods get) request ≡ (check (any_filter methods) request || check get request))
    × (check (all_and methods get) request
        ≡ (check (all_filter methods) request && check get request))
built = check-builders methods get request
