-- ===== src/Fs/Service.antt =====
-- `StaticFiles` and `StaticFilesService` of src/fs.rs. A renderer of directories is a function.
pub mod Confined
pub mod Served
mod Tests
use actix_web.Prelude.{
  String, Bool, true, false, not, Option, none, some, ◌++◌, Result, ok, err, if◌then◌else◌, ◌>>=◌,
}
use actix_web.Http.{HttpRequest, HttpTypes, ServiceRequest, ServiceResponse, new_response}
use actix_web.Fs.Segments.{PathBuf, UriSegmentError, from_request}
use actix_web.Fs.NamedFile.{HeaderTypes, StaticFileConfig, NamedFile, Response, Panic, respond_to}
use actix_web.Fs.Disk.{Media, Disk, is_not_directory, is_directory, open_with_config}

pub record Directory : Type 0 where
  pub base : PathBuf
  pub path : PathBuf

module _ {H : HttpTypes} {T : HeaderTypes} (M : Media H T) where
  abbrev pub DirectoryRenderer : Type 0
  DirectoryRenderer = Directory → HttpRequest → Result (ServiceResponse H) M.IoError

  -- `StaticFiles` and `StaticFilesService`, which has the same fields. The chunk size, the default
  -- service and the flag for symbolic links are not read, and the pool runs the reader's tasks.
  pub record StaticFiles : Type 0 where
    pub directory : PathBuf
    pub index : Option String
    pub show_index : Bool
    pub renderer : DirectoryRenderer

module _ {H : HttpTypes} {T : HeaderTypes} (M : Media H T) where
  -- `ServiceResponse { request: req.clone(), response: item }`, of what `respond_to` gives.
  abbrev pub file_response :
      HttpRequest → Response T → Result (Result (ServiceResponse H) H.Error) Panic
  file_response req item = ok (ok (new_response H req (M.response item)))

  -- The match on `NamedFile::open_with_config`.
  abbrev pub respond_file :
      StaticFileConfig
      → HttpRequest
      → Result (NamedFile T) M.IoError
      → Result (Result (ServiceResponse H) H.Error) Panic
  respond_file config req (err e) = ok (err (M.from_io e))
  respond_file config req (ok file) =
      respond_to config file (M.conditions req) >>= file_response req

  abbrev pub rendered :
      Result (ServiceResponse H) M.IoError → Result (Result (ServiceResponse H) H.Error) Panic
  rendered (ok resp) = ok (ok resp)
  rendered (err e) = ok (err (M.from_io e))

module _ {H : HttpTypes} {T : HeaderTypes} {M : Media H T} where
  -- `StaticFiles::with_config_pool`; `listing` is `directory_listing`.
  abbrev pub with_config_pool :
      Disk M → DirectoryRenderer M → PathBuf → Result (StaticFiles M) H.Error
  with_config_pool D listing dir = elim (D.canonicalize dir) [
    | err e ↦ err (M.from_io e)
    | ok dir' ↦
        if not (D.is_dir dir')
        then err (M.from_static is_not_directory)
        else ok (record { directory = dir'; index = none; show_index = false; renderer = listing })
  ]

  -- `StaticFiles::with_config`, `with_pool` and `new`, by the default pool or configuration.
  abbrev pub with_config : Disk M → DirectoryRenderer M → PathBuf → Result (StaticFiles M) H.Error
  with_config D listing dir = with_config_pool D listing dir

  abbrev pub with_pool : Disk M → DirectoryRenderer M → PathBuf → Result (StaticFiles M) H.Error
  with_pool D listing dir = with_config_pool D listing dir

  abbrev pub new : Disk M → DirectoryRenderer M → PathBuf → Result (StaticFiles M) H.Error
  new D listing dir = with_config D listing dir

  abbrev pub show_files_listing : StaticFiles M → StaticFiles M
  show_files_listing s = record s { show_index = true }

  abbrev pub files_listing_renderer : DirectoryRenderer M → StaticFiles M → StaticFiles M
  files_listing_renderer f s = record s { renderer = f }

  abbrev pub index_file : String → StaticFiles M → StaticFiles M
  index_file index s = record s { index = some index }

  -- `NewService::new_service`.
  abbrev pub new_service : StaticFiles M → StaticFiles M
  new_service s = record {
    directory = s.directory;
    index = s.index;
    show_index = s.show_index;
    renderer = s.renderer;
  }

  module _ (D : Disk M) (config : StaticFileConfig) (s : StaticFiles M) (req : HttpRequest) where
    -- `path.is_dir()`
    abbrev pub call_directory :
        PathBuf → Option String → Result (Result (ServiceResponse H) H.Error) Panic
    call_directory path (some redir_index) =
        respond_file M config req (open_with_config D (M.join path redir_index) config)
    call_directory path none =
        if s.show_index
        then rendered M (s.renderer (record { base = s.directory; path = path }) req)
        else ok (err (M.from_static is_directory))

    abbrev pub call_path : PathBuf → Result (Result (ServiceResponse H) H.Error) Panic
    call_path path =
        if D.is_dir path
        then call_directory path s.index
        else respond_file M config req (open_with_config D path config)

    abbrev pub call_canonical :
        Result PathBuf M.IoError → Result (Result (ServiceResponse H) H.Error) Panic
    call_canonical (ok path) = call_path path
    call_canonical (err e) = ok (err (M.from_io e))

    abbrev pub call_real :
        Result PathBuf UriSegmentError → Result (Result (ServiceResponse H) H.Error) Panic
    call_real (ok real_path) = call_canonical (D.canonicalize (s.directory ++ real_path))
    call_real (err e) = ok (err (M.from_segment e))

  -- `Service::call`.
  unfoldable pub call :
      {P : Type 0}
      → Disk M
      → StaticFileConfig
      → StaticFiles M
      → ServiceRequest P
      → Result (Result (ServiceResponse H) H.Error) Panic
  call D config s req = call_real D config s req.req (from_request req.req.match_path)
