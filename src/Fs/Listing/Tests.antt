-- ===== src/Fs/Listing/Tests.antt =====
-- The listing of a directory with a file, a hidden file and an entry that cannot be read (src/fs.rs).
use actix_web.Prelude.{ℕ, ◌≡◌, refl, true, false, none, some, List, [], ◌∷◌, ◌++◌, Result, ok, err}
use actix_web.Prelude.Text.{Text, codes}
use actix_web.Http.{HttpTypes, HttpRequest, new_response}
use actix_web.Fs.NamedFile.Sample.{small_headers}
use actix_web.Fs.Disk.{Media}
use actix_web.Fs.Listing.{DirEntry, Pages, directory_listing}
use actix_web.Fs.Listing.Visible.{directory_listing-visible}

-- Responses by their body.
abbrev types : HttpTypes
types = record { Response = Text; Error = ℕ; not_found = []; from_error = λ e. [] }

abbrev media : Media types small_headers
media = record {
  IoError = ℕ;
  invalid_input = λ s. 500;
  Handle = ℕ;
  guess_mime_type = λ path. "text/plain";
  type_name = λ ct. "text";
  disposition = λ kind name. "inline";
  join = λ path index. path;
  conditions = λ req. record {
    method = "GET";
    if_match = none;
    if_none_match = none;
    has_if_none_match = false;
    if_unmodified_since = none;
    if_modified_since = none;
    range = none;
  };
  response = λ resp. [];
  new = λ status. [];
  from_io = λ e. e;
  from_segment = λ e. 400;
  from_static = λ e. 404;
  from_error-segment = λ e. refl;
  from_error-static = λ e. refl;
}

abbrev entry : Text → DirEntry
entry name = record {
  file_name = name;
  name = some name;
  metadata = some (record { is_dir = false; is_file = true; is_symlink = false });
}

abbrev three : List (Result DirEntry ℕ)
three = ok (entry (codes "a.txt")) ∷ ok (entry (codes ".git")) ∷ err 13 ∷ []

abbrev pages : Pages types media
pages = record {
  read_dir = λ path. ok three;
  relative = λ base path entry. some (base ++ entry.file_name);
  encode_file_url = λ p. p;
  encode_file_name = λ entry. entry.file_name;
  path_text = λ req. codes "/";
  page = λ html. html;
}

abbrev request : HttpRequest
request = record {
  method = "GET";
  path = "/";
  query = none;
  header = λ name. none;
  match_path = codes "/";
}

directory_listing-visible_example :
    directory_listing pages (record { base = []; path = [] }) request
    ≡ ok (
        new_response types request (
          codes
            "<html><head><title>Index of /</title></head><body><h1>Index of /</h1><ul><li><a href=\"/a.txt\">a.txt</a></li></ul></body>\n</html>"))
directory_listing-visible_example =
    directory_listing-visible pages (record { base = []; path = [] }) request three refl
