-- ===== src/Logger/Tests.antt =====
-- Two formats (src/middleware/logger.rs), with what the regular expression matches in them.
use actix_web.Prelude.{none, some, List, [], ◌∷◌, ◌≡◌, refl}
use actix_web.Prelude.Text.{Text, codes}
use actix_web.Logger.{Capture, Entry, str, new, add_captures}

abbrev entry : Entry
entry = record {
  method = codes "GET";
  path = codes "/";
  query_string = [];
  version = codes "HTTP/1.1";
  status = codes "200";
  size = codes "0";
  seconds = codes "0.000001";
  millis = codes "0.001000";
  started = codes "[now]";
  remote = none;
  request_headers = λ name. some (codes "x");
  response_headers = λ name. none;
  env = λ name. none;
}

abbrev matches : Text → List Capture
matches s =
    record { start = 0; end = 2; group = codes "s"; key = none }
    ∷ record { start = 3; end = 8; group = codes "{A}i"; key = some (codes "A", codes "i") }
    ∷ []

-- In "%%" the expression, whose first group has no percent sign, matches each of the two alone.
abbrev percents : Text → List Capture
percents s =
    record { start = 0; end = 1; group = []; key = none }
    ∷ record { start = 1; end = 2; group = []; key = none }
    ∷ []

percents_lost : new percents (codes "%%") ≡ some (str [] ∷ str [] ∷ [])
unfolding add_captures
percents_lost = refl
