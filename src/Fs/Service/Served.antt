-- ===== src/Fs/Service/Served.antt =====
-- A file that the service of static files (src/fs.rs) finds, up to the bytes that are sent.
use mathlib.Core.Path.{subst}
use actix_web.Prelude.{
  List, refl, ℕ, ◌+◌, ◌^◌, ◌≡◌, ◌≤◌, ◌<◌, ap, ◌∙◌, false, some, ◌++◌, ok, length, take, drop, All,
  ◌>>=◌,
}
use actix_web.Prelude.Text.{Text}
use actix_web.Http.{HttpTypes, ServiceRequest, new_response}
use actix_web.Fs.Chunks.Delivery.{Delivers}
use actix_web.Fs.Segments.{PathBuf, from_request}
use actix_web.Fs.Segments.Safety.{IsSafe}
use actix_web.Fs.Segments.Paths.{join, from_request-join}
use actix_web.Fs.NamedFile.{
  HeaderTypes, StaticFileConfig, NamedFile, Conditions, Body, Response, streaming, message, no_body,
  respond_to,
}
use actix_web.Fs.NamedFile.Served.{respond_to-Delivers}
use actix_web.Fs.Disk.{
  Media, Disk, Metadata, file_name, described, open_with_config, from_file_with_config,
  from_named_file,
}
use actix_web.Fs.Service.{StaticFiles, call, call_real, call_canonical, respond_file, file_response}

-- A path that the file system has as a file, with its last component, handle and metadata.
pub record Found {H : HttpTypes} {T : HeaderTypes} {M : Media H T} (D : Disk M)
    (asked path : PathBuf) (name : Text) (handle : M.Handle) (md : Metadata) : Type 0 where
  pub canonical : D.canonicalize asked ≡ ok path
  pub no_dir : D.is_dir path ≡ false
  pub opened : D.open_file path ≡ ok handle
  pub named : file_name path ≡ some name
  pub measured : D.metadata handle ≡ ok md

module _ {H : HttpTypes} {T : HeaderTypes} {M : Media H T} where
  from_file-Found :
      (D : Disk M) (config : StaticFileConfig) {asked path : PathBuf} {name : Text}
      {handle : M.Handle} {md : Metadata}
      → Found D asked path name handle md
      → from_file_with_config D handle path config
        ≡ ok (described D handle config name (M.guess_mime_type path) md)
  unfolding from_file_with_config
  from_file-Found D config {path = path} {name} {handle} h =
      ap (from_named_file D handle path config) h.named
      ∙ ap (λ r. r >>= λ md. ok (described D handle config name (M.guess_mime_type path) md))
          h.measured

  open-Found :
      (D : Disk M) (config : StaticFileConfig) {asked path : PathBuf} {name : Text}
      {handle : M.Handle} {md : Metadata}
      → Found D asked path name handle md
      → open_with_config D path config
        ≡ ok (described D handle config name (M.guess_mime_type path) md)
  unfolding open_with_config
  open-Found D config {path = path} h =
      ap (λ r. r >>= λ file. from_file_with_config D file path config) h.opened
      ∙ from_file-Found D config h

  call-Found :
      {P : Type 0} (D : Disk M) (config : StaticFileConfig) (s : StaticFiles M)
      (req : ServiceRequest P) (buf : PathBuf) {path : PathBuf} {name : Text} {handle : M.Handle}
      {md : Metadata}
      → All IsSafe buf
      → req.req.match_path ≡ join buf
      → Found D (s.directory ++ buf) path name handle md
      → call D config s req ≡ (
          respond_to config
            (described D handle config name (M.guess_mime_type path) md)
            (M.conditions req.req)
          >>= file_response M req.req)
  unfolding call
  call-Found D config s req buf safe e h =
      ap (call_real D config s req.req) (ap from_request e ∙ from_request-join buf safe)
      ∙ ap (call_canonical D config s req.req) h.canonical
      ∙ rw h.no_dir (ap (respond_file M config req.req) (open-Found D config h))

-- A body that is streamed is a part of the file, and exactly its bytes are delivered.
abbrev pub Sent : {T : HeaderTypes} → (ℕ → ℕ) → List ℕ → Body T → Type 0
Sent delays file (streaming r) =
    (r.offset + r.size ≤ length file) × Delivers delays r (take r.size (drop r.offset file))
Sent delays file (message s) = Unit
Sent delays file no_body = Unit

respond_to-Sent :
    {T : HeaderTypes} (delays : ℕ → ℕ) (c : StaticFileConfig) (f : NamedFile T) (req : Conditions T)
    (resp : Response T)
    → f.len ≡ length f.file
    → f.len < 2 ^ 63
    → respond_to c f req ≡ ok resp
    → Sent delays f.file resp.body
respond_to-Sent delays c f req resp len small answered = go resp.body refl
  where
    go : (body : Body _) → resp.body ≡ body → Sent delays f.file body
    go (streaming r) e =
        let sent = respond_to-Delivers delays c f req resp r len small answered e in
        (subst (λ n. r.offset + r.size ≤ n) len sent.0, sent.1)
    go (message s) e = tt
    go no_body e = tt

-- A request for the path of a file of less than 2^63 bytes below the directory, by components that
-- are safe, where the metadata gives the file's length and the file's response is no panic, is
-- answered with what the file responds, of any status; where that streams a body, it is a part of the
-- file, and exactly its bytes are delivered.
pub call-Delivers :
    {H : HttpTypes} {T : HeaderTypes} {M : Media H T} {P : Type 0} (delays : ℕ → ℕ) (D : Disk M)
    (config : StaticFileConfig) (s : StaticFiles M) (req : ServiceRequest P) (buf : PathBuf)
    {path : PathBuf} {name : Text} {handle : M.Handle} {md : Metadata} (item : Response T)
    → All IsSafe buf
    → req.req.match_path ≡ join buf
    → Found D (s.directory ++ buf) path name handle md
    → md.len ≡ length (D.contents handle)
    → md.len < 2 ^ 63
    → respond_to config
        (described D handle config name (M.guess_mime_type path) md)
        (M.conditions req.req)
      ≡ ok item
    → (call D config s req ≡ ok (ok (new_response H req.req (M.response item))))
      × Sent delays (D.contents handle) item.body
call-Delivers {H} {T} {M} delays D config s req buf {path} {name} {handle} {md} item safe e h len
      small answered =
    (
      call-Found D config s req buf safe e h ∙ ap (λ x. x >>= file_response M req.req) answered,
      respond_to-Sent delays config (described D handle config name (M.guess_mime_type path) md)
          (M.conditions req.req) item len small answered,
    )
