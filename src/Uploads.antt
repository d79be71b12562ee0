-- ===== src/Uploads.antt =====
-- backend/app/uploads.py: the multipart writer, which puts the uploaded archives straight into the
-- upload directory. A bytes value is the list of its bytes, as a text is of its characters.
pub mod Parts
pub mod Stream
pub mod Names
pub mod Owned
pub mod Flushed
pub mod Kept
pub mod Bounds
use layerscope.Base.{
  ℕ, zero, suc, ◌+◌, ◌-◌, Bool, true, false, not, ◌&&◌, ◌||◌, List, [], ◌∷◌, ◌++◌, Option, none,
  some, ◌==◌, ltb, leb, length, take, map, select, any, if◌then◌else◌,
}
use layerscope.Base.Text.{Text, text, same, strip, nonempty, one_of, decimal, replace, last}
use layerscope.Config.{Settings}
use layerscope.Auth.{Reply, ok, http}

-- The upload directory: the files by name.
pub record File : Type 0 where
  pub name : Text
  pub content : Text

unfoldable pub lookup : Text → List File → Option Text
lookup n [] = none
lookup n (f ∷ fs) = if same f.name n then some f.content else lookup n fs

unfoldable pub unlink : Text → List File → List File
unlink n files = select (λ (f : File). not (same f.name n)) files

unfoldable pub append_to : Text → Text → List File → List File
append_to n payload [] = []
append_to n payload (f ∷ fs) =
    let rest = append_to n payload fs in
    (if same f.name n then record f { content = f.content ++ payload } else f) ∷ rest

-- `os.replace(temporary, path)`, for a file that is there.
abbrev pub put_content : Text → Option Text → List File → List File
put_content n none files = files
put_content n (some content) files = record { name = n; content = content } ∷ files

unfoldable pub move_file : Text → Text → List File → List File
move_file temporary path files =
    put_content path (lookup temporary files) (unlink path (unlink temporary files))

-- `_ArchivePart`. Its size grows while its part is the current one, and is final after that.
pub record ArchivePart : Type 0 where
  pub path : Text
  pub temporary : Text
  pub size : ℕ

pub record MultipartPart : Type 0 where
  pub header_name : Text
  pub header_value : Text
  pub content_disposition : Text
  pub archive : Option ArchivePart

pub record StreamedArchive : Type 0 where
  pub name : Text
  pub size : ℕ

-- `_ArchiveMultipartWriter` with the directory; `draws` counts the random names taken.
pub record Writer : Type 0 where
  pub files : List File
  pub current : Option MultipartPart
  pub file_count : ℕ
  pub file_bytes : ℕ
  pub body_bytes : ℕ
  pub checked_at : ℕ
  pub ended : Bool
  pub reserved : List Text
  pub open_archives : List ArchivePart
  pub completed : List StreamedArchive
  pub pending_writes : List (ArchivePart × Text)
  pub pending_finished : List ArchivePart
  pub draws : ℕ

-- The callbacks of the parser.
pub data Event : Type 0 where
  part_begin header_end headers_finished part_end end : Event
  header_field header_value part_data : Text → Event

-- `parse_options_header`: the value, and the options `name` and `filename`.
pub record Disposition : Type 0 where
  pub value : Text
  pub name : Option Text
  pub filename : Option Text

-- python_multipart, the decoding of a header, `str.lower`, the random hexadecimal names, and the
-- errors of the system calls: the `errno` of opening, writing and finishing, if any.
pub record Outside : Type 0 where
  pub parse_options_header : Text → Disposition
  pub decode_header : Text → Text
  pub lower : Text → Text
  pub uuid : ℕ → Text
  pub open_error : Text → Option ℕ
  pub write_error : Text → Option ℕ
  pub finish_error : Text → Option ℕ
  pub storage : List File → Reply (Unit {0})

abbrev pub Outcome : Type 0
Outcome = Writer × Reply (Unit {0})

-- `if test: raise HTTPException(code, message)`, and what follows.
unfoldable pub fail_if : Bool → ℕ → Text → Writer → Outcome → Outcome
fail_if true code message w k = (w, http code message)
fail_if false code message w k = k

abbrev pub malformed : Writer → Outcome
malformed w = (w, http 400 (text "Malformed multipart upload"))

-- `_raise_storage_error`: ENOSPC is 28 and EDQUOT is 122.
abbrev pub is_full : ℕ → Bool
is_full errno = errno == 28 || errno == 122

abbrev pub storage_error : ℕ → Reply (Unit {0})
storage_error errno = http (if is_full errno then 507 else 500) (
    if is_full errno
    then text "Upload storage is full or has reached its quota"
    else text "The upload could not be written to managed storage")

-- `Path(name).name`: the last component that is neither empty nor a dot.
path_components : Text → Text → List Text
path_components part [] = part ∷ []
path_components part (c ∷ s) =
    let new = path_components [] s in
    let same_part = path_components (part ++ (c ∷ [])) s in
    if c == b'/' then part ∷ new else same_part

last_component : List Text → Text
last_component [] = []
last_component (p ∷ ps) =
    let rest = last_component ps in
    if nonempty rest then rest else if same p (text ".") then [] else p

unfoldable pub path_name : Text → Text
unfolding path_components last_component
path_name s = last_component (path_components [] s)

-- `Path(name).stem`, for a name that ends in four characters after its last dot.
unfoldable pub path_stem : Text → Text
path_stem s = if leb (length s) 4 then s else take (length s - 4) s

-- The length of a text in UTF-8.
unfoldable pub utf8_length : Text → ℕ
utf8_length [] = 0
utf8_length (c ∷ s) =
    (if ltb c 128 then 1 else if ltb c 2048 then 2 else if ltb c 65536 then 3 else 4)
    + utf8_length s

-- The names that are tried: the supplied one, and then random ones.
unfoldable pub candidate : Outside → Text → ℕ → ℕ → Text
candidate o safe_name draws zero = safe_name
candidate o safe_name draws (suc n) =
    path_stem safe_name ++ (text "-" ++ (take 8 (o.uuid (draws + n)) ++ text ".tar"))

-- The loop that looks for a free name, with its count of rounds.
unfoldable pub free_name : ℕ → (ℕ → Text) → List Text → ℕ → Option ℕ
free_name zero names taken n = none
free_name (suc rounds) names taken n =
    let rest = free_name rounds names taken (suc n) in
    if one_of (names n) taken then rest else some n

abbrev pub file_names : List File → List Text
file_names [] = []
file_names (f ∷ fs) = f.name ∷ file_names fs

-- `destination.exists() or destination in self.reserved`
abbrev pub taken_names : Writer → List Text
taken_names w = file_names w.files ++ w.reserved
