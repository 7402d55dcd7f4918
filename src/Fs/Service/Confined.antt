-- ===== src/Fs/Service/Confined.antt =====
-- What the service of static files (src/fs.rs) reads of the file system.
use actix_web.Prelude.{
  ◌≡◌, refl, ap, String, Option, none, some, ◌++◌, Result, ok, err, All, ◌⊎◌, inl, inr, Bool-cases,
  ◌>>=◌,
}
use actix_web.Http.{HttpRequest, HttpTypes, ServiceRequest}
use actix_web.Fs.Segments.{PathBuf, UriSegmentError, from_request}
use actix_web.Fs.Segments.Safety.{IsSafe, from_request-IsSafe}
use actix_web.Fs.NamedFile.{HeaderTypes, StaticFileConfig}
use actix_web.Fs.Disk.{Media, Disk, open_with_config, from_file_with_config}
use actix_web.Fs.Service.{
  DirectoryRenderer, StaticFiles, call_directory, call_path, call_canonical, call_real, call,
  respond_file, rendered,
}

module _ {H : HttpTypes} {T : HeaderTypes} {M : Media H T} (s : StaticFiles M) where
  -- The directory, or what lies below it by components that name neither a parent nor a hidden
  -- file.
  abbrev pub Inside : PathBuf → Type 0
  Inside path = (rest : PathBuf) × All IsSafe rest × (path ≡ s.directory ++ rest)

  -- A path inside, or the index file of one.
  abbrev pub Served : PathBuf → Type 0
  Served path =
      Inside path
      ⊎ ((dir : PathBuf) × (index : String) × Inside dir
          × (s.index ≡ some index)
          × (path ≡ M.join dir index))

  -- No path below the directory goes through a symbolic link, so that `canonicalize` leaves it.
  abbrev pub NoLinks : Disk M → Type 0
  NoLinks D =
      (rest path : PathBuf)
      → All IsSafe rest
      → D.canonicalize (s.directory ++ rest) ≡ ok path
      → path ≡ s.directory ++ rest

module _ {H : HttpTypes} {T : HeaderTypes} {M : Media H T} where
  -- Another file system, and another renderer.
  abbrev pub other_disk : Disk M → (PathBuf → Result M.Handle M.IoError) → Disk M
  other_disk D opens = record D { open_file = opens }

  abbrev pub other_service : DirectoryRenderer M → StaticFiles M → StaticFiles M
  other_service renderer' s = record s { renderer = renderer' }

module _ {H : HttpTypes} {T : HeaderTypes} {M : Media H T} (D : Disk M)
    (opens : PathBuf → Result M.Handle M.IoError) (renderer' : DirectoryRenderer M)
    (s : StaticFiles M) (config : StaticFileConfig) (req : HttpRequest)
    (same_open : (path : PathBuf) → Served s path → opens path ≡ D.open_file path)
    (same_render : (path : PathBuf)
      → Inside s path
      → renderer' (record { base = s.directory; path = path }) req
        ≡ s.renderer (record { base = s.directory; path = path }) req) where
  open_same :
      (path : PathBuf)
      → Served s path
      → open_with_config (other_disk D opens) path config ≡ open_with_config D path config
  unfolding open_with_config from_file_with_config
  open_same path h =
      ap (λ r. r >>= λ file. from_file_with_config D file path config) (same_open path h)

  call_directory_same :
      (path : PathBuf) (index : Option String)
      → Inside s path
      → s.index ≡ index
      → call_directory (other_disk D opens) config (other_service renderer' s) req path index
        ≡ call_directory D config s req path index
  call_directory_same path (some index) h e =
      ap (respond_file M config req) (open_same (M.join path index) (inr (path, index, h, e, refl)))
  call_directory_same path none h e = elim (Bool-cases s.show_index) [
    | inl show ↦ rw show (ap (rendered M) (same_render path h))
    | inr hide ↦ rw hide refl
  ]

  call_path_same :
      (path : PathBuf)
      → Inside s path
      → call_path (other_disk D opens) config (other_service renderer' s) req path
        ≡ call_path D config s req path
  call_path_same path h = elim (Bool-cases (D.is_dir path)) [
    | inl dir ↦ rw dir (call_directory_same path s.index h refl)
    | inr file ↦ rw file (ap (respond_file M config req) (open_same path (inl h)))
  ]

  call_canonical_same :
      (rest : PathBuf) (canonical : Result PathBuf M.IoError)
      → All IsSafe rest
      → ((path : PathBuf) → canonical ≡ ok path → path ≡ s.directory ++ rest)
      → call_canonical (other_disk D opens) config (other_service renderer' s) req canonical
        ≡ call_canonical D config s req canonical
  call_canonical_same rest (ok path) h k = call_path_same path (rest, h, k path refl)
  call_canonical_same rest (err e) h k = refl

  call_real_same :
      (real : Result PathBuf UriSegmentError)
      → NoLinks s D
      → ((rest : PathBuf) → real ≡ ok rest → All IsSafe rest)
      → call_real (other_disk D opens) config (other_service renderer' s) req real
        ≡ call_real D config s req real
  call_real_same (ok rest) links safe =
      call_canonical_same rest (D.canonicalize (s.directory ++ rest)) (safe rest refl)
        (λ path. links rest path (safe rest refl))
  call_real_same (err e) links safe = refl

-- Where no path below the directory goes through a symbolic link, the service's answer to a request
-- depends on no file outside the directory: another file system with the same directories, which
-- opens the files below the served one and the index files there alike, whatever it opens on any
-- other path, gives the same answer, and so does another renderer that treats the directories inside
-- alike. A path is below the directory by components that name neither a parent nor a hidden file.
pub call-confined :
    {H : HttpTypes} {T : HeaderTypes} {M : Media H T} {P : Type 0} (D : Disk M)
    (config : StaticFileConfig) (s : StaticFiles M) (req : ServiceRequest P)
    (opens : PathBuf → Result M.Handle M.IoError) (renderer' : DirectoryRenderer M)
    → NoLinks s D
    → ((path : PathBuf) → Served s path → opens path ≡ D.open_file path)
    → ((path : PathBuf)
        → Inside s path
        → renderer' (record { base = s.directory; path = path }) req.req
          ≡ s.renderer (record { base = s.directory; path = path }) req.req)
    → call (record D { open_file = opens }) config (record s { renderer = renderer' }) req
      ≡ call D config s req
unfolding call
call-confined D config s req opens renderer' links same_open same_render =
    call_real_same D opens renderer' s config req.req same_open same_render
      (from_request req.req.match_path) links (λ rest e. from_request-IsSafe req.req.match_path e)
