-- ===== src/Filter.antt =====
-- src/filter.rs: the filters of a route, as data. A filter of the user is a test on the request.
pub mod Laws
mod Tests
use text.Mathlib.Text.{◌==◌ as str_eq}
use actix_web.Prelude.{String, Bool, true, false, not, Option, none, some, if◌then◌else◌}
use actix_web.Prelude.Text.{Text, same}
use actix_web.Http.{HttpRequest}

mutual
  pub data Filter : Type 0 where
    any_filter : Filters → Filter
    all_filter : Filters → Filter
    not_filter : Filter → Filter
    method_filter : String → Filter
    header_filter : String → Text → Filter
    host_filter : String → Option String → Filter
    custom : (HttpRequest → Bool) → Filter

  pub data Filters : Type 0 where
    nil : Filters
    cons : Filter → Filters → Filters

-- `Vec::push`.
unfoldable pub push : Filters → Filter → Filters
push nil g = cons g nil
push (cons f fs) g = cons f (push fs g)

-- `Any`, and `AnyFilter::or`.
abbrev pub any : Filter → Filter
any f = any_filter (cons f nil)

abbrev pub any_or : Filters → Filter → Filter
any_or fs g = any_filter (push fs g)

-- `All`, and `AllFilter::and`.
abbrev pub all : Filter → Filter
all f = all_filter (cons f nil)

abbrev pub all_and : Filters → Filter → Filter
all_and fs g = all_filter (push fs g)

abbrev pub get : Filter
get = method_filter "GET"

abbrev pub post : Filter
post = method_filter "POST"

abbrev pub put : Filter
put = method_filter "PUT"

abbrev pub delete : Filter
delete = method_filter "DELETE"

abbrev pub head : Filter
head = method_filter "HEAD"

-- `Host`, and `HostFilter::scheme`.
abbrev pub host : String → Filter
host name = host_filter name none

abbrev pub scheme : String → String → Filter
scheme name s = host_filter name (some s)

-- `HeaderFilter::check`, of the value of the header.
abbrev pub has_value : Text → Option Text → Bool
has_value value (some val) = same val value
has_value value none = false

unfoldable mutual
  -- `Filter::check`.
  pub check : Filter → HttpRequest → Bool
  check (any_filter fs) req = check_any fs req
  check (all_filter fs) req = check_all fs req
  check (not_filter f) req = not (check f req)
  check (method_filter m) req = str_eq req.method m
  check (header_filter name value) req = has_value value (req.header name)
  check (host_filter name s) req = false
  check (custom f) req = f req

  -- The loop of `AnyFilter::check`.
  pub check_any : Filters → HttpRequest → Bool
  check_any nil req = false
  check_any (cons f fs) req = if check f req then true else check_any fs req

  -- The loop of `AllFilter::check`.
  pub check_all : Filters → HttpRequest → Bool
  check_all nil req = true
  check_all (cons f fs) req = if not (check f req) then false else check_all fs req
