-- ===== src/Reports/Export.antt =====
-- backend/app/reports.py: the selection of the scans of a group export. `name_before` is the order of
-- the query: the lowered names, and then the numbers.
pub mod Shown
pub mod Complete
use layerscope.Base.{
  ℕ, suc, ◌+◌, ◌-◌, ◌≤◌, ◌≡◌, refl, ap, arith, Bool, true, false, not, ◌&&◌, ◌||◌, List, [], ◌∷◌,
  ◌++◌, Option, none, some, ◌==◌, ltb, length, take, length-take, select, any, map, min, is_some,
  if◌then◌else◌, Bool-cases, inl, inr,
}
use layerscope.Base.Keys.{fromkeys}
use layerscope.Base.Table
use layerscope.Base.Text.{Text, text, decimal}
use layerscope.Models.{ImageArchive, Scan}
use layerscope.Auth.{first}
use layerscope.Groups.{GroupDb, ImageGroup, group_key, is_member}
use layerscope.Groups.Payload.{latest_completed_scan}

abbrev pub max_reports : ℕ
max_reports = 100

abbrev pub max_unscanned_sample : ℕ
max_unscanned_sample = 100

-- A selection, or a `GroupExportError`.
pub data Exported (A : Type 0) : Type 0 where
  exported : A → Exported A
  export_error : ℕ → Text → Exported A

pub record Selection : Type 0 where
  pub scan_ids : List ℕ
  pub groups : List (ℕ × Text)
  pub member_count : ℕ
  pub included_scan_count : ℕ
  pub unscanned_member_count : ℕ
  pub unscanned_members : List (ℕ × Text)
  pub unscanned_members_truncated : Bool

-- The distinct visible images of the groups.
abbrev pub in_groups : List ℕ → GroupDb → ImageArchive → Bool
in_groups ids db a = not a.hidden && any (λ g. is_member g a.id db.members) ids

abbrev pub export_members : List ℕ → GroupDb → List ImageArchive
export_members ids db = select (in_groups ids db) db.images

abbrev pub has_scan : GroupDb → ImageArchive → Bool
has_scan db a = is_some (latest_completed_scan a.id db.scans)

module _ (name_before : ImageArchive → ImageArchive → Bool) where
  unfoldable pub insert_image : ImageArchive → List ImageArchive → List ImageArchive
  insert_image a [] = a ∷ []
  insert_image a (b ∷ images) =
      let rest = insert_image a images in if name_before a b then a ∷ b ∷ images else b ∷ rest

  unfoldable pub by_name : List ImageArchive → List ImageArchive
  unfolding insert_image
  by_name [] = []
  by_name (a ∷ images) = insert_image a (by_name images)

  abbrev pub with_row : Option Scan → List ℕ → List ℕ
  with_row none rows = rows
  with_row (some s) rows = s.id ∷ rows

  -- The number of the latest completed scan of each image that has one.
  unfoldable pub scan_rows : List Scan → List ImageArchive → List ℕ
  scan_rows scans [] = []
  scan_rows scans (a ∷ images) =
      with_row (latest_completed_scan a.id scans) (scan_rows scans images)

  abbrev pub image_row : ImageArchive → ℕ × Text
  image_row a = (a.id, a.name)

  abbrev pub group_name : Option ImageGroup → Text
  group_name none = []
  group_name (some g) = g.name

  unfoldable pub selection_of : List ℕ → GroupDb → List ImageArchive → List ℕ → Selection
  selection_of ids db members rows =
      let unscanned = by_name (select (λ (a : ImageArchive). not (has_scan db a)) members) in
      let sample = map image_row (take max_unscanned_sample unscanned) in
      let unscanned_count = length members - length rows in
      record {
        scan_ids = rows;
        groups = map (λ g. (g, group_name (Table.get group_key g db.groups))) ids;
        member_count = length members;
        included_scan_count = length rows;
        unscanned_member_count = unscanned_count;
        unscanned_members = sample;
        unscanned_members_truncated = ltb (length sample) unscanned_count;
      }

  abbrev pub select_rows : List ℕ → GroupDb → List ImageArchive → List ℕ → Exported Selection
  select_rows ids db members [] =
      export_error 409 (text "No visible member in the selected group export has a completed scan")
  select_rows ids db members (i ∷ rows) =
      if ltb max_reports (length (take (suc max_reports) (i ∷ rows)))
      then export_error 422 (text "Group exports are limited to 100 completed image reports")
      else exported (selection_of ids db members (i ∷ rows))

  abbrev pub select_members : List ℕ → GroupDb → List ImageArchive → Exported Selection
  select_members ids db [] =
      export_error 409 (text "The selected group export has no visible image members")
  select_members ids db (a ∷ members) =
      select_rows ids db (a ∷ members) (scan_rows db.scans (by_name (a ∷ members)))

  abbrev pub known_groups : List ℕ → GroupDb → Option ℕ → Exported Selection
  known_groups ids db (some g) = export_error 404 (text "Image group not found: " ++ decimal g)
  known_groups ids db none = select_members ids db (export_members ids db)

  abbrev pub bad_ids : List ℕ → Bool
  bad_ids ids = length ids == 0 || ltb max_reports (length ids) || any (λ g. g == 0) ids

  -- `group_export_selection`
  unfoldable pub group_export_selection : List ℕ → GroupDb → Exported Selection
  group_export_selection group_ids db =
      let ids = fromkeys group_ids in
      if bad_ids ids
      then export_error 422 (text "Export between 1 and 100 valid group IDs")
      else known_groups ids db
          (first (λ (g : ℕ). not (is_some (Table.get group_key g db.groups))) ids)
