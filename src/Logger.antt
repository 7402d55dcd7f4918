-- ===== src/Logger.antt =====
-- The format of log lines of src/middleware/logger.rs. What the regular expression matches, and the
-- texts that are logged, are parameters.
pub mod Line
mod Tests
use actix_web.Prelude.{
  ℕ, ◌-◌, ◌==◌, Bool, Option, none, some, List, [], ◌∷◌, ◌++◌, if◌then◌else◌, length, take, drop,
}
use actix_web.Prelude.Text.{Text, codes, same}

pub data FormatText : Type 0 where
  str : Text → FormatText
  percent : FormatText
  request_line : FormatText
  request_time : FormatText
  response_status : FormatText
  response_size : FormatText
  time : FormatText
  time_millis : FormatText
  remote_addr : FormatText
  request_header : Text → FormatText
  response_header : Text → FormatText
  environ_header : Text → FormatText

-- One of `captures_iter`: the place of the match, its first group, and, where the second group took
-- part, its text and that of the third.
pub record Capture : Type 0 where
  pub start : ℕ
  pub end : ℕ
  pub group : Text
  pub key : Option (Text × Text)

-- `s[a..b]`
abbrev pub slice : Text → ℕ → ℕ → Text
slice s a b = take (b - a) (drop a s)

-- The match on the third group; `none` is its `unreachable!()`.
abbrev pub header_unit : Text → Text → Option FormatText
header_unit key kind =
    if same kind (codes "i")
    then some (request_header key)
    else if same kind (codes "o")
    then some (response_header key)
    else if same kind (codes "e")
    then some (environ_header key)
    else none

-- The match on the first group.
abbrev pub plain_unit : Text → FormatText
plain_unit m =
    if same m (codes "%")
    then percent
    else if same m (codes "a")
    then remote_addr
    else if same m (codes "t")
    then request_time
    else if same m (codes "r")
    then request_line
    else if same m (codes "s")
    then response_status
    else if same m (codes "b")
    then response_size
    else if same m (codes "T")
    then time
    else if same m (codes "D")
    then time_millis
    else str m

abbrev pub unit_of : Capture → Option FormatText
unit_of cap = elim cap.key [
  | some (key, kind) ↦ header_unit key kind
  | none ↦ some (plain_unit cap.group)
]

-- `if idx != pos { results.push(Str(..)) }`
abbrev pub gap : Text → ℕ → ℕ → List FormatText
gap s idx pos = if idx == pos then [] else str (slice s idx pos) ∷ []

abbrev pub push_unit :
    List FormatText → Option FormatText → Option (List FormatText) → Option (List FormatText)
push_unit before (some unit) (some units) = some (before ++ unit ∷ units)
push_unit before (some unit) none = none
push_unit before none units = none

-- The loop of `Format::new`, from `idx` on, and the push behind it.
unfoldable pub add_captures : Text → ℕ → List Capture → Option (List FormatText)
add_captures s idx [] = some (gap s idx (length s))
add_captures s idx (cap ∷ caps) =
    push_unit (gap s idx cap.start) (unit_of cap) (add_captures s cap.end caps)

-- `Format::new`; `captures_iter` is that of the regular expression.
abbrev pub new : (Text → List Capture) → Text → Option (List FormatText)
new captures_iter s = add_captures s 0 (captures_iter s)

-- The texts that `FormatText::render` asks the request, the response, the clock and the environment
-- for; of a header or a variable, if it is there and is text.
pub record Entry : Type 0 where
  pub method : Text
  pub path : Text
  pub query_string : Text
  pub version : Text
  pub status : Text
  pub size : Text
  pub seconds : Text
  pub millis : Text
  pub started : Text
  pub remote : Option Text
  pub request_headers : Text → Option Text
  pub response_headers : Text → Option Text
  pub env : Text → Option Text

abbrev pub or_dash : Option Text → Text
or_dash (some s) = s
or_dash none = codes "-"

abbrev pub with_query : Text → Text → Text
with_query path [] = path
with_query path (c ∷ query) = path ++ codes "?" ++ c ∷ query

-- `FormatText::render`.
unfoldable pub render : Entry → FormatText → Text
render e (str s) = s
render e percent = codes "%"
render e request_line =
    e.method ++ (codes " " ++ (with_query e.path e.query_string ++ (codes " " ++ e.version)))
render e request_time = e.started
render e response_status = e.status
render e response_size = e.size
render e time = e.seconds
render e time_millis = e.millis
render e remote_addr = or_dash e.remote
render e (request_header name) = or_dash (e.request_headers name)
render e (response_header name) = or_dash (e.response_headers name)
render e (environ_header name) = or_dash (e.env name)

-- The loop of `Logger::log`.
unfoldable pub log : Entry → List FormatText → Text
log e [] = []
log e (unit ∷ units) = render e unit ++ log e units
