-- ===== src/Tests/Reports.antt =====
-- Runs of the check of a report's logo.
use layerscope.Base.{Bool, leb, ◌≡◌, refl, true, [], ◌∷◌, Option, some}
use layerscope.Base.Text.{Text, text, same}
use layerscope.Reports.{Picture, strict_png_container, sanitize_report_logo}
use layerscope.Reports.Container.{Chunk, write_png, strict_png_container-write_png}
use layerscope.Models.{ImageArchive, completed}
use layerscope.Groups.{GroupDb}
use layerscope.Tests.Samples.{sample_db, sample_image, sample_scan}
use layerscope.Reports.Logo.{IsSafe, sanitize_report_logo-Safe}
use layerscope.Tests.Samples.{same_text}

abbrev header : Chunk
header = record {
  chunk_type = 73 ∷ 72 ∷ 68 ∷ 82 ∷ [];
  body = 1 ∷ 2 ∷ [];
  checksum = 9 ∷ 9 ∷ 9 ∷ 9 ∷ [];
}

strict_png_container-write_png_example :
    strict_png_container (write_png (header ∷ []) (1 ∷ 1 ∷ 1 ∷ 1 ∷ [])) ≡ true
unfolding same
strict_png_container-write_png_example =
    strict_png_container-write_png (header ∷ []) (1 ∷ 1 ∷ 1 ∷ 1 ∷ []) ((refl, refl, refl), tt) refl

abbrev square : Text → Option Picture
square s = some (record { single = true; width = 8; height = 8 })

abbrev copied : Text → Option Text
copied s = some s

sanitize_report_logo-Safe_example :
    IsSafe same_text square copied (255 ∷ 216 ∷ 255 ∷ 217 ∷ []) (
      sanitize_report_logo same_text square copied (255 ∷ 216 ∷ 255 ∷ 217 ∷ []) (text "image/jpeg"))
sanitize_report_logo-Safe_example =
    sanitize_report_logo-Safe same_text square copied (255 ∷ 216 ∷ 255 ∷ 217 ∷ [])
      (text "image/jpeg")

abbrev sample_groups : GroupDb
sample_groups = record {
  auth = sample_db;
  images = sample_image ∷ record sample_image { id = 8 } ∷ [];
  scans = record sample_scan { status = completed } ∷ [];
  findings = [];
  groups =
      record { id = 4; name = []; description = []; color = []; created_at = 0; updated_at = 0 }
      ∷ [];
  members =
      record { id = 1; group_id = 4; image_id = 7; added_at = 0 }
      ∷ record { id = 2; group_id = 4; image_id = 8; added_at = 0 }
      ∷ [];
}

abbrev by_number : ImageArchive → ImageArchive → Bool
by_number a b = leb a.id b.id
