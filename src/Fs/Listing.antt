-- ===== src/Fs/Listing.antt =====
-- `directory_listing` of src/fs.rs, a page of links to the visible entries of a directory. Entries,
-- the encodings of names and URLs, and the response are parameters; a page is a list of characters.
pub mod Visible
mod Tests
use actix_web.Prelude.{
  Bool, true, false, ◌||◌, Option, none, some, List, [], ◌∷◌, ◌++◌, Result, ok, err, ◌>>=◌,
  if◌then◌else◌,
}
use actix_web.Prelude.Text.{Text, codes, starts_with}
use actix_web.Http.{HttpRequest, HttpTypes, ServiceResponse, new_response}
use actix_web.Fs.Segments.{PathBuf}
use actix_web.Fs.NamedFile.{HeaderTypes}
use actix_web.Fs.Disk.{Media}
use actix_web.Fs.Service.{Directory}

-- `std::fs::FileType`.
pub record FileType : Type 0 where
  pub is_dir : Bool
  pub is_file : Bool
  pub is_symlink : Bool

-- `std::fs::DirEntry`: its name, where it is UTF-8, and its metadata, where it can be read.
pub record DirEntry : Type 0 where
  pub file_name : Text
  pub name : Option Text
  pub metadata : Option FileType

pub record Pages (H : HttpTypes) {T : HeaderTypes} (M : Media H T) : Type 0 where
  pub read_dir : PathBuf → Result (List (Result DirEntry M.IoError)) M.IoError
  -- `entry.path().strip_prefix(path)`, joined to the path of the request; `none` is an error
  pub relative : Text → PathBuf → DirEntry → Option Text
  pub encode_file_url : Text → Text
  pub encode_file_name : DirEntry → Text
  pub path_text : HttpRequest → Text
  -- `Response::Ok().content_type("text/html; charset=utf-8").body(html)`
  pub page : Text → H.Response

abbrev pub hidden : Option Text → Bool
hidden (some name) = starts_with (codes ".") name
hidden none = false

abbrev pub shown : Option FileType → Bool
shown (some ft) = ft.is_dir || ft.is_file || ft.is_symlink
shown none = false

-- `Directory::is_visible`.
abbrev pub is_visible {ℓ} : {E : Type ℓ} → Result DirEntry E → Bool
is_visible (ok entry) = if hidden entry.name then false else shown entry.metadata
is_visible (err e) = false

module _ {H : HttpTypes} {T : HeaderTypes} {M : Media H T} (L : Pages H M) where
  -- The two `write!`.
  abbrev pub item_text : Text → Bool → Text → Text
  item_text p is_dir name =
      codes "<li><a href=\""
      ++ (L.encode_file_url p
          ++ (codes "\">" ++ (name ++ (if is_dir then codes "/</a></li>" else codes "</a></li>"))))

  -- What an entry that is visible adds to the page.
  abbrev pub item : DirEntry → Option Text → Option FileType → Text
  item entry none md = []
  item entry (some p) none = []
  item entry (some p) (some md) = item_text p md.is_dir (L.encode_file_name entry)

  abbrev pub entry_text : Text → PathBuf → Result DirEntry M.IoError → Text
  entry_text base path (err e) = []
  entry_text base path (ok entry) = item entry (L.relative base path entry) entry.metadata

  -- The loop over the entries.
  unfoldable pub entries_text : Text → PathBuf → List (Result DirEntry M.IoError) → Text
  entries_text base path [] = []
  entries_text base path (entry ∷ entries) =
      if is_visible entry
      then entry_text base path entry ++ entries_text base path entries
      else entries_text base path entries

  abbrev pub html : Text → Text → Text
  html index_of body =
      codes "<html><head><title>"
      ++ (index_of
          ++ (codes "</title></head><body><h1>"
              ++ (index_of ++ (codes "</h1><ul>" ++ (body ++ codes "</ul></body>\n</html>")))))

  -- `directory_listing`.
  unfoldable pub directory_listing : Directory → HttpRequest → Result (ServiceResponse H) M.IoError
  unfolding entries_text
  directory_listing dir req =
      let path = L.path_text req in
      L.read_dir dir.path >>= λ entries. ok (
        new_response H req
          (L.page (html (codes "Index of " ++ path) (entries_text path dir.path entries))))
