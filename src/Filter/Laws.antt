-- ===== src/Filter/Laws.antt =====
-- The filters of src/filter.rs as Boolean functions of the request.
use actix_web.Prelude.{not, ◌&&◌, ◌||◌, ◌≡◌, sym, refl, arith}
use actix_web.Http.{HttpRequest}
use actix_web.Filter.{
  Filter, Filters, nil, cons, push, any_filter, all_filter, not_filter, any_or, all_and, check,
  check_any, check_all,
}

-- Every filter of the list, negated.
pub negated : Filters → Filters
negated nil = nil
negated (cons f fs) = cons (not_filter f) (negated fs)

check_all-negated :
    (fs : Filters) (req : HttpRequest) → check_all (negated fs) req ≡ not (check_any fs req)
unfolding negated check check_any check_all
check_all-negated nil req = refl
check_all-negated (cons f fs) req = ground (arith, check_all-negated fs req)

check_any-negated :
    (fs : Filters) (req : HttpRequest) → check_any (negated fs) req ≡ not (check_all fs req)
unfolding negated check check_any check_all
check_any-negated nil req = refl
check_any-negated (cons f fs) req = ground (arith, check_any-negated fs req)

-- The two laws of De Morgan, for lists of filters of any length.
pub check-de_morgan :
    (fs : Filters) (req : HttpRequest)
    → (check (not_filter (any_filter fs)) req ≡ check (all_filter (negated fs)) req)
      × (check (not_filter (all_filter fs)) req ≡ check (any_filter (negated fs)) req)
unfolding check
check-de_morgan fs req = (sym (check_all-negated fs req), sym (check_any-negated fs req))

pub check_any-push :
    (fs : Filters) (g : Filter) (req : HttpRequest)
    → check_any (push fs g) req ≡ (check_any fs req || check g req)
unfolding check_any push
check_any-push nil g req = ground arith
check_any-push (cons f fs) g req = ground (arith, check_any-push fs g req)

pub check_all-push :
    (fs : Filters) (g : Filter) (req : HttpRequest)
    → check_all (push fs g) req ≡ (check_all fs req && check g req)
unfolding check_all push
check_all-push nil g req = ground arith
check_all-push (cons f fs) g req = ground (arith, check_all-push fs g req)

-- `or` adds an alternative, and `and` adds a condition, to what the filter tests already.
pub check-builders :
    (fs : Filters) (g : Filter) (req : HttpRequest)
    → (check (any_or fs g) req ≡ (check (any_filter fs) req || check g req))
      × (check (all_and fs g) req ≡ (check (all_filter fs) req && check g req))
unfolding check
check-builders fs g req = (check_any-push fs g req, check_all-push fs g req)
