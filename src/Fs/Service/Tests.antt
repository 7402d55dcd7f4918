-- ===== src/Fs/Service/Tests.antt =====
-- A directory /srv with one file, readme.txt (src/fs.rs).
use actix_web.Prelude.{
  ℕ, ◌+◌, ◌≤◌, ◌≡◌, refl, sym, ap, false, none, some, [], ◌∷◌, ◌++◌, Result, ok, err, take, drop,
  arith, if◌then◌else◌, inl, inr, is_empty,
}
use actix_web.Prelude.Text.{Text, codes, same}
use actix_web.Http.{HttpTypes, ServiceRequest, new_response, absent}
use actix_web.Fs.Chunks.{reader}
use actix_web.Fs.Chunks.Delivery.{Delivers}
use actix_web.Fs.Segments.{PathBuf}
use actix_web.Fs.Segments.Safety.{IsSafe}
use actix_web.Fs.NamedFile.{default_config, later}
use actix_web.Fs.NamedFile.Sample.{small_headers, six_bytes, middle, partial, partial_answer}
use actix_web.Fs.Disk.{Media, Disk}
use actix_web.Fs.Service.{StaticFiles, call}
use actix_web.Fs.Service.Served.{Found, call-Delivers}
use actix_web.Fs.Service.Confined.{call-confined, Served}

-- Responses and errors by their status.
abbrev types : HttpTypes
types = record { Response = ℕ; Error = ℕ; not_found = 404; from_error = λ e. e }

abbrev media : Media types small_headers
media = record {
  IoError = ℕ;
  invalid_input = λ s. 500;
  Handle = ℕ;
  guess_mime_type = λ path. "text/plain";
  type_name = λ ct. "text";
  disposition = λ kind name. "inline";
  join = λ path index. path ++ codes index ∷ [];
  conditions = λ req. middle;
  response = λ resp. resp.status;
  new = λ status. status;
  from_io = λ e. e;
  from_segment = λ e. 400;
  from_static = λ e. 404;
  from_error-segment = λ e. refl;
  from_error-static = λ e. refl;
}

abbrev readme : PathBuf
readme = codes "readme.txt" ∷ []

abbrev disk : Disk media
disk = record {
  canonicalize = λ path. ok path;
  is_dir = λ path. is_empty path;
  open_file = λ path. ok 1;
  metadata = λ file. ok (record { len = 6; ino = 20; modified = some (later 100 0) });
  contents = λ file. six_bytes;
}

abbrev srv : StaticFiles media
srv = record {
  directory = codes "srv" ∷ [];
  index = none;
  show_index = false;
  renderer = λ dir req. err 500;
}

abbrev get : Text → ServiceRequest ℕ
get path = record {
  req = record {
    method = "GET";
    path = "/";
    query = none;
    header = λ name. none;
    match_path = path;
  };
  payload = absent;
}

readme-IsSafe : IsSafe (codes "readme.txt")
readme-IsSafe = ground arith

readme-Found :
    Found disk
      (srv.directory ++ readme)
      (srv.directory ++ readme)
      (codes "readme.txt")
      1
      (record { len = 6; ino = 20; modified = some (later 100 0) })
readme-Found = record {
  canonical = refl;
  no_dir = refl;
  opened = refl;
  named = refl;
  measured = refl;
}

call-Delivers_example :
    (call disk default_config srv (get (codes "readme.txt"))
      ≡ ok (ok (new_response types (get (codes "readme.txt")).req 206)))
    × ((2 + 2 ≤ 6) × Delivers (λ n. n) (reader 2 2 six_bytes) (take 2 (drop 2 six_bytes)))
call-Delivers_example =
    call-Delivers (λ n. n) disk default_config srv (get (codes "readme.txt")) readme partial
      (readme-IsSafe, tt) refl readme-Found refl (omega arith) partial_answer

-- A file system that opens nothing but what begins with /srv.
abbrev only_srv : PathBuf → Result ℕ ℕ
only_srv [] = err 404
only_srv (s ∷ path) = if same s (codes "srv") then ok 1 else err 404

only_srv-Served : (path : PathBuf) → Served srv path → only_srv path ≡ ok 1
only_srv-Served path (inl (rest, h, e)) = rw e refl
only_srv-Served path (inr (dir, index, (rest, h, e), k, l)) = rw (l, e) refl

abbrev value : PathBuf → Result PathBuf ℕ → PathBuf
value path (ok path') = path'
value path (err e) = path

call-confined_example :
    call (record disk { open_file = only_srv }) default_config srv (get (codes "/../etc//passwd"))
    ≡ call disk default_config srv (get (codes "/../etc//passwd"))
call-confined_example =
    call-confined disk default_config srv (get (codes "/../etc//passwd")) only_srv
      (λ dir req. err 500) (λ rest path h e. sym (ap (value []) e)) only_srv-Served (λ path h. refl)
