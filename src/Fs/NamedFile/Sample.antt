-- ===== src/Fs/NamedFile/Sample.antt =====
-- A small file with small headers, and a request for the middle of it (src/fs.rs).
use actix_web.Prelude.{ℕ, ◌+◌, ◌≡◌, refl, String, false, none, some, [], ◌∷◌, ◌++◌, ok, ltb, ◌==◌}
use actix_web.Prelude.Text.{codes, parse_i64, trim, split}
use actix_web.Fs.Chunks.{File, reader}
use actix_web.Fs.Range.{parse}
use actix_web.Fs.NamedFile.{
  HeaderTypes, later, default_config, NamedFile, Conditions, Response, respond_to, serve,
  serve_range, serve_ranges, any_match, none_match, precondition_failed, not_modified, respond,
  tagged_headers, content_range, content_length, streaming,
}

abbrev pub small_headers : HeaderTypes
small_headers = record {
  Mime = String;
  ContentDisposition = String;
  ContentEncoding = String;
  HttpDate = ℕ;
  EntityTag = ℕ;
  strong = λ ino len secs nanos. ino + len + secs + nanos;
  strong_eq = λ a b. a == b;
  weak_eq = λ a b. a == b;
  after = λ a b. ltb b a;
  since_epoch = λ secs nanos. secs;
  before_epoch = λ secs nanos. 0;
}

abbrev pub six_bytes : File
six_bytes = 10 ∷ 11 ∷ 12 ∷ 13 ∷ 14 ∷ 15 ∷ []

abbrev pub six : NamedFile small_headers
six = record {
  content_type = "text/plain";
  content_disposition = "inline";
  len = 6;
  ino = 20;
  modified = some (later 100 0);
  encoding = none;
  status_code = 200;
  file = six_bytes;
}

abbrev pub plain : Conditions small_headers
plain = record {
  method = "GET";
  if_match = none;
  if_none_match = none;
  has_if_none_match = false;
  if_unmodified_since = none;
  if_modified_since = none;
  range = none;
}

abbrev pub middle : Conditions small_headers
middle = record plain { range = some (some (codes "bytes=2-3")) }

abbrev pub partial : Response small_headers
partial =
    respond 206
      (tagged_headers six (some 126) (some 100) ++ content_range 2 3 6 ∷ content_length 2 ∷ [])
      (streaming (reader 2 2 six_bytes))

pub partial_answer : respond_to default_config six middle ≡ ok partial
unfolding respond_to serve serve_range serve_ranges any_match none_match precondition_failed
    not_modified parse trim split parse_i64
partial_answer = refl
