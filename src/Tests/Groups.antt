-- ===== src/Tests/Groups.antt =====
-- Runs of the image groups.
use layerscope.Base.{ℕ, ◌≤◌, ◌≡◌, refl, true, false, List, [], ◌∷◌, arith, discard, ◌+◌}
use layerscope.Models.{admin, completed, Finding}
use layerscope.Groups.{GroupDb, ImageGroup, sorted}
use layerscope.Base.Keys.{fromkeys}
use layerscope.Groups.Spec.{
  Change, replace, add, delete, sets, perform_all, change_all, change_sets, perform_all_refines,
}
use layerscope.Groups.Payload.{
  group_payload, group_images, tally, total, finding_counts, add_counts, add_count,
  latest_completed_scan,
}
use layerscope.Groups.Payload.Latest.{visible_members, scanned_members, member_findings}
use layerscope.Groups.Payload.Totals.{group_payload_sound, Says}
use layerscope.Base.Table
use layerscope.Groups.Unique.{count_rows, perform_all-Unique}
use layerscope.Tests.Samples.{sample_db, sample_image, sample_scan, sample_request, user}

abbrev sample_group : ImageGroup
sample_group = record {
  id = 4;
  name = [];
  description = [];
  color = [];
  created_at = 0;
  updated_at = 0;
}

abbrev sample_groups : GroupDb
sample_groups = record {
  auth = sample_db;
  images = sample_image ∷ [];
  scans = sample_scan ∷ [];
  findings = [];
  groups = sample_group ∷ [];
  members = record { id = 1; group_id = 4; image_id = 7; added_at = 0 } ∷ [];
}

-- The image is added twice, a missing image is refused, and the group is deleted.
abbrev changes : List Change
changes = add 4 (7 ∷ 7 ∷ []) ∷ replace 4 (8 ∷ []) ∷ replace 4 (7 ∷ 7 ∷ []) ∷ delete 4 ∷ []

abbrev keys : ℕ → ℕ
keys n = n + 2

perform_all_refines_example :
    (sets (perform_all keys sample_request (user 1 admin true) changes sample_groups).0
      ≡ (change_all changes (sets sample_groups)).0)
    × ((perform_all keys sample_request (user 1 admin true) changes sample_groups).1
        ≡ (change_all changes (sets sample_groups)).1)
perform_all_refines_example =
    perform_all_refines keys sample_request (user 1 admin true) changes sample_groups

answers : (change_all changes (sets sample_groups)).1 ≡ true ∷ false ∷ true ∷ true ∷ []
unfolding change_all change_sets
answers = refl

once : (g i : ℕ) → count_rows g i sample_groups.members ≤ 1
unfolding count_rows
once g i = ground arith

perform_all-Unique_example :
    count_rows 4 7
      (perform_all keys sample_request (user 1 admin true) changes sample_groups).0.members
    ≤ 1
perform_all-Unique_example =
    perform_all-Unique keys sample_request (user 1 admin true) changes sample_groups once 4 7

fromkeys_test : fromkeys (3 ∷ 1 ∷ 3 ∷ 2 ∷ 1 ∷ []) ≡ 3 ∷ 1 ∷ 2 ∷ []
unfolding fromkeys discard
fromkeys_test = refl

sorted_test : sorted (3 ∷ 1 ∷ 2 ∷ []) ≡ 1 ∷ 2 ∷ 3 ∷ []
unfolding sorted
sorted_test = refl

abbrev sample_finding : Finding
sample_finding = record {
  scan_id = 1;
  target = [];
  vulnerability_id = [];
  package_name = [];
  installed_version = [];
  fixed_version = [];
  severity = [];
  title = [];
  description = [];
  primary_url = [];
}

-- The image has been scanned, with one finding.
abbrev scanned_groups : GroupDb
scanned_groups = record sample_groups {
  scans = record sample_scan { status = completed } ∷ [];
  findings = sample_finding ∷ [];
}

group_payload_sound_example :
    ((group_payload scanned_groups sample_group).member_count
      ≡ visible_members 4 scanned_groups.images scanned_groups.members)
    × ((group_payload scanned_groups sample_group).scanned_count
        ≡ scanned_members 4 scanned_groups.images scanned_groups.scans scanned_groups.members)
    × ((group_payload scanned_groups sample_group).scanned_count
          + (group_payload scanned_groups sample_group).unscanned_count
        ≡ visible_members 4 scanned_groups.images scanned_groups.members)
    × ((group_payload scanned_groups sample_group).total_findings
        ≡ member_findings 4 scanned_groups.images scanned_groups.scans scanned_groups.findings
            scanned_groups.members)
    × Says
        (group_payload scanned_groups sample_group).scan_status
        (group_payload scanned_groups sample_group).member_count
        (group_payload scanned_groups sample_group).scanned_count
group_payload_sound_example = group_payload_sound scanned_groups sample_group

one_finding : (group_payload scanned_groups sample_group).total_findings ≡ 1
unfolding group_payload total tally group_images Table.get latest_completed_scan add_counts
    finding_counts add_count
one_finding = refl
