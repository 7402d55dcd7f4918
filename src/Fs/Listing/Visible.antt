-- ===== src/Fs/Listing/Visible.antt =====
-- Which entries a listing (src/fs.rs) shows.
use actix_web.Prelude.{
  Bool, true, false, not, ◌&&◌, ◌||◌, ◌==◌, Option, none, some, arith, ◌≡◌, refl, ap, ◌∙◌, List, [],
  ◌∷◌, ◌++◌, Result, ok, err, if◌then◌else◌, ◌>>=◌,
}
use actix_web.Prelude.Text.{Text, codes}
use actix_web.Http.{HttpRequest, HttpTypes, new_response}
use actix_web.Fs.Segments.{PathBuf}
use actix_web.Fs.NamedFile.{HeaderTypes}
use actix_web.Fs.Disk.{Media}
use actix_web.Fs.Service.{Directory}
use actix_web.Fs.Listing.{
  DirEntry, FileType, Pages, hidden, shown, is_visible, entry_text, entries_text, directory_listing,
  html, item,
}

-- A name that is UTF-8 and begins with a dot is not listed.
abbrev pub name_listed : Option Text → Bool
name_listed none = true
name_listed (some []) = true
name_listed (some (c ∷ name)) = not (c == b'.')

-- Directories, files and links are listed, and nothing else, if the metadata can be read.
abbrev pub kind_listed : Bool → Bool → Bool → Bool
kind_listed true is_file is_symlink = true
kind_listed false true is_symlink = true
kind_listed false false true = true
kind_listed false false false = false

abbrev pub metadata_listed : Option FileType → Bool
metadata_listed none = false
metadata_listed (some md) = kind_listed md.is_dir md.is_file md.is_symlink

-- The entries that can be read and are listed by their name and by their metadata.
abbrev pub visible {ℓ} : {E : Type ℓ} → List (Result DirEntry E) → List DirEntry
visible [] = []
visible (err e ∷ entries) = visible entries
visible (ok entry ∷ entries) =
    let rest = visible entries in
    if name_listed entry.name && metadata_listed entry.metadata then entry ∷ rest else rest

name_listed-hidden : (name : Option Text) → name_listed name ≡ not (hidden name)
name_listed-hidden none = refl
name_listed-hidden (some []) = refl
name_listed-hidden (some (c ∷ name)) = ground arith

metadata_listed-shown : (md : Option FileType) → metadata_listed md ≡ shown md
metadata_listed-shown none = refl
metadata_listed-shown (some md) = go md.is_dir md.is_file md.is_symlink
  where
    go : (a b c : Bool) → kind_listed a b c ≡ (a || b || c)
    go true b c = refl
    go false true c = refl
    go false false true = refl
    go false false false = refl

visible_of :
    (entry : DirEntry)
    → is_visible {E = Unit {0}} (ok entry)
      ≡ (name_listed entry.name && metadata_listed entry.metadata)
visible_of entry =
    rw (name_listed-hidden entry.name, metadata_listed-shown entry.metadata)
      (go (hidden entry.name) (shown entry.metadata))
  where
    go : (a b : Bool) → (if a then false else b) ≡ (not a && b)
    go true b = refl
    go false b = refl

module _ {H : HttpTypes} {T : HeaderTypes} {M : Media H T} (L : Pages H M) where
  -- A link to a directory ends in a slash. An entry whose path is not below the directory has none.
  abbrev pub link : Text → Text → Option FileType → Text
  link url name none = []
  link url name (some md) = elim md.is_dir [
    | true ↦ codes "<li><a href=\"" ++ (url ++ (codes "\">" ++ (name ++ codes "/</a></li>")))
    | false ↦ codes "<li><a href=\"" ++ (url ++ (codes "\">" ++ (name ++ codes "</a></li>")))
  ]

  abbrev pub link_of : Option Text → DirEntry → Text
  link_of none entry = []
  link_of (some p) entry = link (L.encode_file_url p) (L.encode_file_name entry) entry.metadata

  -- The links of these entries.
  abbrev pub links : Text → PathBuf → List DirEntry → Text
  links base path [] = []
  links base path (entry ∷ entries) =
      link_of (L.relative base path entry) entry ++ links base path entries

  link_of-item :
      (p : Option Text) (entry : DirEntry) → item L entry p entry.metadata ≡ link_of p entry
  link_of-item none entry = refl
  link_of-item (some p) entry = go entry.metadata
    where
      by_kind :
          (a b c : Bool)
          → item L entry (some p) (some (record { is_dir = a; is_file = b; is_symlink = c }))
            ≡ link
                (L.encode_file_url p)
                (L.encode_file_name entry)
                (some (record { is_dir = a; is_file = b; is_symlink = c }))
      by_kind true b c = refl
      by_kind false b c = refl

      go :
          (md : Option FileType)
          → item L entry (some p) md ≡ link (L.encode_file_url p) (L.encode_file_name entry) md
      go none = refl
      go (some md) = by_kind md.is_dir md.is_file md.is_symlink

  entries_text-visible :
      (base : Text) (path : PathBuf) (entries : List (Result DirEntry M.IoError))
      → entries_text L base path entries ≡ links base path (visible entries)
  unfolding entries_text
  entries_text-visible base path [] = refl
  entries_text-visible base path (err e ∷ entries) = entries_text-visible base path entries
  entries_text-visible base path (ok entry ∷ entries) =
      ap
        (λ b.
          if b
          then entry_text L base path (ok entry) ++ entries_text L base path entries
          else entries_text L base path entries)
        (visible_of entry)
      ∙ go (name_listed entry.name && metadata_listed entry.metadata)
          (entries_text-visible base path entries)
    where
      go :
          (b : Bool)
          → entries_text L base path entries ≡ links base path (visible entries)
          → (if b
              then entry_text L base path (ok entry) ++ entries_text L base path entries
              else entries_text L base path entries)
            ≡ links base path (if b then entry ∷ visible entries else visible entries)
      go true h =
          ap (λ t. entry_text L base path (ok entry) ++ t) h
          ∙ ap (λ t. t ++ links base path (visible entries))
              (link_of-item (L.relative base path entry) entry)
      go false h = h

-- A directory that can be read is listed by one page, which has one link for each of its visible
-- entries whose path lies below the directory, in their order, and nothing of the others: an entry
-- that cannot be read, one whose name is UTF-8 and begins with a dot, or one that is neither a
-- directory, a file nor a link leaves no trace on the page.
pub directory_listing-visible :
    {H : HttpTypes} {T : HeaderTypes} {M : Media H T} (L : Pages H M) (dir : Directory)
    (req : HttpRequest) (entries : List (Result DirEntry M.IoError))
    → L.read_dir dir.path ≡ ok entries
    → directory_listing L dir req
      ≡ ok (
          new_response H req (
            L.page (
              html L
                (codes "Index of " ++ L.path_text req)
                (links L (L.path_text req) dir.path (visible entries)))))
unfolding directory_listing
directory_listing-visible {H} L dir req entries e =
    ap
      (λ r. r >>= λ entries. ok (
        new_response H req (
          L.page (
            html L (codes "Index of " ++ L.path_text req)
              (entries_text L (L.path_text req) dir.path entries)))))
      e
    ∙ ap
        (λ body.
          ok (new_response H req (L.page (html L (codes "Index of " ++ L.path_text req) body))))
        (entries_text-visible L (L.path_text req) dir.path entries)
