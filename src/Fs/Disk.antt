-- ===== src/Fs/Disk.antt =====
-- How `NamedFile` of src/fs.rs is opened. The file system and the types of files are parameters; an
-- absolute path is the list of its components.
use actix_web.Prelude.{◌≡◌, ℕ, String, Bool, Option, none, some, [], ◌∷◌, Result, ok, err, ◌>>=◌}
use actix_web.Prelude.Text.{Text}
use actix_web.Http.{HttpRequest, HttpTypes}
use actix_web.Fs.Chunks.{File}
use actix_web.Fs.Segments.{PathBuf, UriSegmentError}
use actix_web.Fs.NamedFile.{
  HeaderTypes, SystemTime, DispositionType, StaticFileConfig, default_config, NamedFile, Conditions,
  Response,
}

pub data StaticFilesError : Type 0 where
  is_not_directory : StaticFilesError
  is_directory : StaticFilesError

-- `error_response` of the two errors; `new` is `Response::new`.
abbrev pub static_response : {R : Type 0} → (ℕ → R) → StaticFilesError → R
static_response new e = new 404

abbrev pub segment_response : {R : Type 0} → (ℕ → R) → UriSegmentError → R
segment_response new e = new 400

-- What the module takes from `std::io`, `std::path`, `mime_guess` and `actix_http`.
pub record Media (H : HttpTypes) (T : HeaderTypes) : Type 1 where
  pub IoError : Type 0
  pub invalid_input : String → IoError
  -- `std::fs::File`
  pub Handle : Type 0
  pub guess_mime_type : PathBuf → T.Mime
  -- `ct.type_()`
  pub type_name : T.Mime → String
  -- `ContentDisposition` of a type and one parameter, the file name
  pub disposition : DispositionType → Text → T.ContentDisposition
  -- `Path::join` of a string
  pub join : PathBuf → String → PathBuf
  pub conditions : HttpRequest → Conditions T
  pub response : Response T → H.Response
  pub new : ℕ → H.Response
  pub from_io : IoError → H.Error
  pub from_segment : UriSegmentError → H.Error
  pub from_static : StaticFilesError → H.Error
  -- An `Error` answers with the response of what it was made from.
  pub from_error-segment :
      (e : UriSegmentError) → H.from_error (from_segment e) ≡ segment_response new e
  pub from_error-static :
      (e : StaticFilesError) → H.from_error (from_static e) ≡ static_response new e

-- `std::fs::Metadata`, as far as the module reads it.
pub record Metadata : Type 0 where
  pub len : ℕ
  pub ino : ℕ
  pub modified : Option SystemTime

-- The file system.
pub record Disk {H : HttpTypes} {T : HeaderTypes} (M : Media H T) : Type 0 where
  pub canonicalize : PathBuf → Result PathBuf M.IoError
  pub is_dir : PathBuf → Bool
  pub open_file : PathBuf → Result M.Handle M.IoError
  pub metadata : M.Handle → Result Metadata M.IoError
  pub contents : M.Handle → File

-- `Path::file_name`.
abbrev pub file_name : PathBuf → Option Text
file_name [] = none
file_name (s ∷ []) = some s
file_name (s ∷ t ∷ path) = file_name (t ∷ path)

module _ {H : HttpTypes} {T : HeaderTypes} {M : Media H T} (D : Disk M) where
  abbrev pub described : M.Handle → StaticFileConfig → Text → T.Mime → Metadata → NamedFile T
  described file config filename ct md = record {
    content_type = ct;
    content_disposition = M.disposition (config.content_disposition_map (M.type_name ct)) filename;
    len = md.len;
    ino = md.ino;
    modified = md.modified;
    encoding = none;
    status_code = 200;
    file = D.contents file;
  }

  -- From the name of the file on.
  abbrev pub from_named_file :
      M.Handle → PathBuf → StaticFileConfig → Option Text → Result (NamedFile T) M.IoError
  from_named_file file path config none = err (M.invalid_input "Provided path has no filename")
  from_named_file file path config (some filename) =
      D.metadata file >>= λ md. ok (described file config filename (M.guess_mime_type path) md)

  -- `NamedFile::from_file_with_config`.
  unfoldable pub from_file_with_config :
      M.Handle → PathBuf → StaticFileConfig → Result (NamedFile T) M.IoError
  from_file_with_config file path config = from_named_file file path config (file_name path)

  -- `NamedFile::open_with_config`.
  unfoldable pub open_with_config : PathBuf → StaticFileConfig → Result (NamedFile T) M.IoError
  unfolding from_file_with_config
  open_with_config path config = D.open_file path >>= λ file. from_file_with_config file path config

  -- `NamedFile::from_file` and `NamedFile::open`.
  abbrev pub from_file : M.Handle → PathBuf → Result (NamedFile T) M.IoError
  from_file file path = from_file_with_config file path default_config

  abbrev pub open_named_file : PathBuf → Result (NamedFile T) M.IoError
  open_named_file path = open_with_config path default_config
