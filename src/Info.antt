-- ===== src/Info.antt =====
-- src/info.rs, which src/lib.rs does not compile at this commit: the scheme, the host and the peer
-- of a connection, by the headers of a request.
pub mod Elements
pub mod Sources
mod Tests
use actix_web.Prelude.{
  ℕ, ◌+◌, Bool, true, false, ◌&&◌, ◌==◌, leb, Option, none, some, List, [], ◌∷◌, ◌++◌,
  if◌then◌else◌,
}
use actix_web.Prelude.Text.{Text, codes, same, split, trim}

-- What is read of `RequestHead` and of the settings of the server. A header is none, or what its
-- `to_str` gives.
pub record RequestHead : Type 0 where
  pub forwarded : List (Option Text)
  pub x_forwarded_proto : Option (Option Text)
  pub x_forwarded_host : Option (Option Text)
  pub x_forwarded_for : Option (Option Text)
  pub host_header : Option (Option Text)
  pub scheme_part : Option Text
  pub authority_part : Option Text
  pub secure : Bool
  pub server_host : Text
  pub peer_addr : Option Text

pub record ConnectionInfo : Type 0 where
  pub scheme : Text
  pub host : Text
  pub remote : Option Text
  pub peer : Option Text

-- `str::to_lowercase` of a header, which is ASCII.
abbrev pub lower : ℕ → ℕ
lower c = if leb b'A' c && leb c b'Z' then c + 32 else c

abbrev pub to_lowercase : Text → Text
to_lowercase [] = []
to_lowercase (c ∷ s) = lower c ∷ to_lowercase s

-- `s.splitn(2, '=')`: the name, and the value if there is one.
abbrev pub with_head : ℕ → Text × Option Text → Text × Option Text
with_head c (name, value) = (c ∷ name, value)

unfoldable pub split_pair : Text → Text × Option Text
split_pair [] = ([], none)
split_pair (c ∷ s) = let rest = split_pair s in if c == b'=' then ([], some s) else with_head c rest

-- The three variables that the loop over the header Forwarded fills.
pub record Forwarded : Type 0 where
  pub host : Option Text
  pub scheme : Option Text
  pub remote : Option Text

-- The names that the loop matches.
pub data Name : Type 0 where
  for_name : Name
  proto_name : Name
  host_name : Name
  other_name : Name

abbrev pub name_of : Text → Name
name_of name =
    if same name (codes "for")
    then for_name
    else if same name (codes "proto")
    then proto_name
    else if same name (codes "host")
    then host_name
    else other_name

-- `if x.is_none() { x = Some(val.trim()) }`
abbrev pub set_none : Option Text → Text → Option Text
set_none (some x) val = some x
set_none none val = some (trim val)

abbrev pub set_name : Name → Text → Forwarded → Forwarded
set_name for_name val found = record found { remote = set_none found.remote val }
set_name proto_name val found = record found { scheme = set_none found.scheme val }
set_name host_name val found = record found { host = set_none found.host val }
set_name other_name val found = found

abbrev pub add_pair : Text × Option Text → Forwarded → Forwarded
add_pair (name, none) found = found
add_pair (name, some val) found = set_name (name_of (to_lowercase name)) val found

-- The loops over the elements of a pair, the pairs of a header, and the headers.
unfoldable pub add_elements : List Text → Forwarded → Forwarded
add_elements [] found = found
add_elements (el ∷ els) found = add_elements els (add_pair (split_pair (trim el)) found)

unfoldable pub add_pairs : List Text → Forwarded → Forwarded
add_pairs [] found = found
add_pairs (pair ∷ pairs) found = add_pairs pairs (add_elements (split b',' pair) found)

abbrev pub add_header : Option Text → Forwarded → Forwarded
add_header none found = found
add_header (some val) found = add_pairs (split b';' val) found

unfoldable pub add_headers : List (Option Text) → Forwarded → Forwarded
add_headers [] found = found
add_headers (hdr ∷ hdrs) found = add_headers hdrs (add_header hdr found)

-- `h.split(',').next().map(|v| v.trim())`
abbrev pub first_trimmed : List Text → Option Text
first_trimmed [] = none
first_trimmed (v ∷ vs) = some (trim v)

abbrev pub first_of : Option (Option Text) → Option Text
first_of (some (some h)) = first_trimmed (split b',' h)
first_of (some none) = none
first_of none = none

abbrev pub text_of : Option (Option Text) → Option Text
text_of (some (some h)) = some h
text_of (some none) = none
text_of none = none

-- `if x.is_none() { x = other }`
abbrev pub or_then : Option Text → Option Text → Option Text
or_then (some x) other = some x
or_then none other = other

abbrev pub unwrap_or : Option Text → Text → Text
unwrap_or (some x) other = x
unwrap_or none other = other

abbrev pub https : Bool → Option Text
https true = some (codes "https")
https false = none

-- The blocks behind the loop.
abbrev pub find_scheme : RequestHead → Option Text → Option Text
find_scheme req scheme =
    or_then scheme
      (or_then (first_of req.x_forwarded_proto) (or_then req.scheme_part (https req.secure)))

abbrev pub find_host : RequestHead → Option Text → Option Text
find_host req host = or_then host (
    or_then (first_of req.x_forwarded_host)
      (or_then (text_of req.host_header) (or_then req.authority_part (some req.server_host))))

abbrev pub find_remote : RequestHead → Option Text → Option Text × Option Text
find_remote req (some remote) = (some remote, none)
find_remote req none = elim (first_of req.x_forwarded_for) [
  | some remote ↦ (some remote, none)
  | none ↦ (none, req.peer_addr)
]

abbrev pub info_of : RequestHead → Forwarded → ConnectionInfo
info_of req found = record {
  scheme = unwrap_or (find_scheme req found.scheme) (codes "http");
  host = unwrap_or (find_host req found.host) (codes "localhost");
  remote = (find_remote req found.remote).0;
  peer = (find_remote req found.remote).1;
}

-- `ConnectionInfo::new`.
unfoldable pub new : RequestHead → ConnectionInfo
new req =
    info_of req (add_headers req.forwarded (record { host = none; scheme = none; remote = none }))

-- `ConnectionInfo::remote`.
abbrev pub remote_of : ConnectionInfo → Option Text
remote_of info = elim info.remote [
  | some r ↦ some r
  | none ↦ elim info.peer [ some peer ↦ some peer | none ↦ none ]
]
