-- ===== src/Groups/Payload/Totals.antt =====
-- The numbers of the group summaries and of the overview.
use layerscope.Base.{
  ℕ, suc, ◌+◌, ◌-◌, ◌≤◌, ◌≡◌, arith, List, [], ◌∷◌, Option, none, some, ◌==◌, length, Bool-cases,
  inl, inr,
}
use layerscope.Models.{ImageArchive, Scan}
use layerscope.Groups.{ImageGroup, GroupDb}
use layerscope.Groups.Payload.Latest.{visible_members, scanned_members, member_findings}
use layerscope.Groups.Payload.{
  total, latest_completed_scan, group_images, tally, group_payload, ScanStatus, empty, unscanned,
  partial, scanned, scan_status_of,
}
use layerscope.Groups.Payload.Counted.{
  expected_scanned, group_images-Agrees, is_scanned, tally_sound,
}

scanned-le :
    (images : List ImageArchive) (scans : List Scan) → expected_scanned images scans ≤ length images
unfolding expected_scanned
scanned-le [] scans = omega arith
scanned-le (a ∷ images) scans =
    omega (arith, one (latest_completed_scan a.id scans), scanned-le images scans)
  where
    one : (o : Option Scan) → is_scanned o ≤ 1
    one none = omega arith
    one (some s) = omega arith

-- What the status of a group says of its members.
abbrev pub Says : ScanStatus → ℕ → ℕ → Type 0
Says empty members done = members ≡ 0
Says unscanned members done = (1 ≤ members) × (done ≡ 0)
Says partial members done = (1 ≤ done) × (suc done ≤ members)
Says scanned members done = (1 ≤ done) × (done ≡ members)

says : (m d : ℕ) → d ≤ m → Says (scan_status_of m d (m - d)) m d
unfolding scan_status_of
says m d h = elim (Bool-cases (m == 0)) [
  | inl e ↦ rw e (ground (arith, e))
  | inr e ↦ elim (Bool-cases (d == 0)) [
    | inl f ↦ rw (e, f) (ground (arith, e), ground (arith, f))
    | inr f ↦ elim (Bool-cases (m - d == 0)) [
      | inl g ↦ rw (e, f, g) (ground (arith, f), ground (arith, g, h))
      | inr g ↦ rw (e, f, g) (ground (arith, f), ground (arith, g, h))
    ]
  ]
]

-- The summary of a group counts the rows of its members whose image is visible, and of these the ones
-- whose image has a completed scan and the ones without. Its findings are those of the latest
-- completed scan (the one with the greatest number) of each such member, and the status says whether
-- all, some or none of the members are scanned.
pub group_payload_sound :
    (db : GroupDb) (g : ImageGroup)
    → ((group_payload db g).member_count ≡ visible_members g.id db.images db.members)
      × ((group_payload db g).scanned_count ≡ scanned_members g.id db.images db.scans db.members)
      × ((group_payload db g).scanned_count + (group_payload db g).unscanned_count
          ≡ visible_members g.id db.images db.members)
      × ((group_payload db g).total_findings
          ≡ member_findings g.id db.images db.scans db.findings db.members)
      × Says
          (group_payload db g).scan_status
          (group_payload db g).member_count
          (group_payload db g).scanned_count
unfolding group_payload total
group_payload_sound db g =
    let images = group_images g.id db.images db.members in
    let (done, found) = tally_sound db.scans db.findings images 0 [] in
    let few = scanned-le images db.scans in
    let (count, with_scan, in_scans) =
      group_images-Agrees g.id db.images db.scans db.findings db.members in
    (
      count,
      omega (arith, done, with_scan),
      omega (arith, done, few, count),
      omega (arith, found, in_scans),
      says (length images) (tally images db.scans db.findings (0, [])).0 (omega (arith, done, few)),
    )

abbrev pub over_groups : (ImageGroup → ℕ) → List ImageGroup → ℕ
over_groups n [] = 0
over_groups n (g ∷ groups) = n g + over_groups n groups
