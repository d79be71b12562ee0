-- ===== src/Reports.antt =====
-- backend/app/reports.py: the check of a report's logo. Bytes are a list of numbers below 256; the
-- decoding of the image is Pillow's.
pub mod Container
pub mod Export
pub mod Logo
use layerscope.Base.{
  ℕ, zero, suc, ◌+◌, ◌*◌, Bool, true, false, not, ◌&&◌, ◌||◌, List, [], ◌∷◌, ◌++◌, Option, none,
  some, ◌==◌, ltb, leb, length, take, drop, if◌then◌else◌,
}
use layerscope.Base.Text.{Text, text, same, starts_with, last, one_of, nonempty, strip}

-- `int.from_bytes(four, "big")`
unfoldable pub from_bytes : Text → ℕ
from_bytes [] = 0
from_bytes (a ∷ []) = a
from_bytes (a ∷ b ∷ []) = a * 256 + b
from_bytes (a ∷ b ∷ c ∷ []) = (a * 256 + b) * 256 + c
from_bytes (a ∷ b ∷ c ∷ d ∷ rest) = ((a * 256 + b) * 256 + c) * 256 + d

-- `data[start:start + n]`
abbrev pub slice : ℕ → ℕ → Text → Text
slice start n s = take n (drop start s)

abbrev pub png_signature : Text
png_signature = 137 ∷ 80 ∷ 78 ∷ 71 ∷ 13 ∷ 10 ∷ 26 ∷ 10 ∷ []

abbrev pub iend : Text
iend = 73 ∷ 69 ∷ 78 ∷ 68 ∷ []

-- The loop over the chunks, with its count of rounds.
unfoldable pub walk_chunks : ℕ → ℕ → Text → Bool
walk_chunks zero offset s = false
walk_chunks (suc rounds) offset s =
    let size = from_bytes (slice offset 4 s) in
    let chunk_type = slice (offset + 4) 4 s in
    let end = offset + 12 + size in
    let rest = walk_chunks rounds end s in
    if leb (offset + 12) (length s)
    then (if ltb (length s) end
        then false
        else if same chunk_type iend
        then size == 0 && end == length s
        else rest)
    else false

-- `_strict_png_container`: each round passes twelve bytes at least.
unfoldable pub strict_png_container : Text → Bool
strict_png_container s = if starts_with s png_signature then walk_chunks (length s) 8 s else false

abbrev pub max_report_logo_bytes : ℕ
max_report_logo_bytes = 2 * 1024 * 1024

abbrev pub max_sanitized_logo_bytes : ℕ
max_sanitized_logo_bytes = 8 * 1024 * 1024

pub data Checked (A : Type 0) : Type 0 where
  accepted : A → Checked A
  logo_error : Text → Checked A

pub data Format : Type 0 where
  png jpeg : Format

-- The media type before a semicolon.
unfoldable pub before_semicolon : Text → Text
before_semicolon [] = []
before_semicolon (c ∷ s) = let rest = before_semicolon s in if c == b';' then [] else c ∷ rest

-- The format that the bytes show.
unfoldable pub detect : Text → Checked Format
detect s =
    if starts_with s png_signature
    then (if strict_png_container s
        then accepted png
        else logo_error (text "The PNG logo is malformed or contains trailing data"))
    else if starts_with s (255 ∷ 216 ∷ 255 ∷ [])
    then (if same (last 2 s) (255 ∷ 217 ∷ [])
        then accepted jpeg
        else logo_error (text "The JPEG logo is malformed or contains trailing data"))
    else logo_error (text "The report logo does not have a supported PNG or JPEG signature")

abbrev pub media_type : Format → Text
media_type png = text "image/png"
media_type jpeg = text "image/jpeg"

-- What Pillow tells of the image: its format is one of the two, it has one frame, and its size.
pub record Picture : Type 0 where
  pub single : Bool
  pub width : ℕ
  pub height : ℕ

module _ (casefold : Text → Text) (open_image : Text → Option Picture)
    (encode : Text → Option Text) where
  abbrev pub encoded : Option Text → Checked Text
  encoded none = logo_error (text "The report logo could not be decoded safely")
  encoded (some sanitized) =
      if ltb max_sanitized_logo_bytes (length sanitized)
      then logo_error (text "The decoded report logo is too complex")
      else accepted sanitized

  abbrev pub too_big : Picture → Bool
  too_big p =
      ltb p.width 1
      || ltb p.height 1
      || ltb 2000 p.width
      || ltb 1000 p.height
      || ltb 2000000 (p.width * p.height)

  abbrev pub pictured : Text → Option Picture → Checked Text
  pictured s none = logo_error (text "The report logo could not be decoded safely")
  pictured s (some p) =
      if not p.single
      then logo_error (text "Animated or unsupported report logos are not allowed")
      else if too_big p
      then logo_error (text "Report logos are limited to 2000x1000 and 2,000,000 decoded pixels")
      else encoded (encode s)

  abbrev pub declared_as : Text → Text → Checked Format → Checked Text
  declared_as s declared (logo_error e) = logo_error e
  declared_as s declared (accepted f) =
      if same declared (media_type f)
      then pictured s (open_image s)
      else logo_error (text "The report logo content type does not match its encoded format")

  -- `sanitize_report_logo`
  unfoldable pub sanitize_report_logo : Text → Text → Checked Text
  sanitize_report_logo s content_type =
      let declared = casefold (strip (before_semicolon content_type)) in
      if not (nonempty s)
      then logo_error (text "The report logo is empty")
      else if ltb max_report_logo_bytes (length s)
      then logo_error (text "The report logo exceeds the 2 MiB limit")
      else if not (one_of declared (text "image/png" ∷ text "image/jpeg" ∷ []))
      then logo_error (text "Report logos must be PNG or JPEG images")
      else declared_as s declared (detect s)
