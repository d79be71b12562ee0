-- ===== src/Groups/Payload/Counted.antt =====
-- The counts of a summary, taken image by image and by the member rows of a group.
use layerscope.Base.{
  ℕ, ◌+◌, ◌≡◌, refl, arith, List, [], ◌∷◌, Option, none, some, ◌==◌, length, select, Bool-cases,
  inl, inr, any, not, ◌&&◌, if◌then◌else◌,
}
use layerscope.Base.Text.{Text, same}
use layerscope.Models.{ImageArchive, Scan, Finding}
use layerscope.Scanner.Outside.{image_key}
use layerscope.Base.Table
use layerscope.Groups.{ImageGroupMember}
use layerscope.Groups.Payload.Latest.{
  completes, Latest, latest_completed_scan-Latest, is_latest_unique, no_latest, visible_members,
  scanned_members, latest_findings, member_findings,
}
use layerscope.Groups.Payload.{
  Counts, add_count, add_counts, total, finding_counts, latest_completed_scan, group_images,
  with_completed, tally, visible_image,
}

pub total-add_count :
    (level : Text) (n : ℕ) (cs : Counts) → total (add_count level n cs) ≡ total cs + n
unfolding total add_count
total-add_count level n [] = omega arith
total-add_count level n ((l, k) ∷ cs) = elim (Bool-cases (same l level)) [
  | inl e ↦ rw e (omega arith)
  | inr e ↦ rw e (omega (arith, total-add_count level n cs))
]

pub total-add_counts :
    (cs severity : Counts) → total (add_counts cs severity) ≡ total cs + total severity
unfolding total add_counts
total-add_counts [] severity = omega arith
total-add_counts ((l, n) ∷ cs) severity =
    omega (arith, total-add_counts cs (add_count l n severity), total-add_count l n severity)

-- The findings of a scan.
unfoldable pub findings_of : ℕ → List Finding → ℕ
findings_of i findings = length (select (λ (f : Finding). f.scan_id == i) findings)

total-finding_counts : (i : ℕ) (fs : List Finding) → total (finding_counts i fs) ≡ findings_of i fs
unfolding finding_counts findings_of total
total-finding_counts i [] = refl
total-finding_counts i (f ∷ fs) =
    ground (arith, total-finding_counts i fs, total-add_count f.severity 1 (finding_counts i fs))

-- What one image counts for: its latest completed scan, if it has one.
abbrev pub scan_findings : Option Scan → List Finding → ℕ
scan_findings none findings = 0
scan_findings (some s) findings = findings_of s.id findings

abbrev pub is_scanned : Option Scan → ℕ
is_scanned none = 0
is_scanned (some s) = 1

unfoldable pub expected_findings : List ImageArchive → List Scan → List Finding → ℕ
expected_findings [] scans findings = 0
expected_findings (a ∷ images) scans findings =
    scan_findings (latest_completed_scan a.id scans) findings
    + expected_findings images scans findings

unfoldable pub expected_scanned : List ImageArchive → List Scan → ℕ
expected_scanned [] scans = 0
expected_scanned (a ∷ images) scans =
    is_scanned (latest_completed_scan a.id scans) + expected_scanned images scans

module _ (scans : List Scan) (findings : List Finding) where
  one_image :
      (o : Option Scan) (n : ℕ) (severity : Counts)
      → ((with_completed o findings (n, severity)).0 ≡ is_scanned o + n)
        × (total (with_completed o findings (n, severity)).1
            ≡ scan_findings o findings + total severity)
  one_image none n severity = (omega arith, omega arith)
  one_image (some s) n severity = (
    omega arith,
    omega (
      arith,
      total-add_counts (finding_counts s.id findings) severity,
      total-finding_counts s.id findings,
    ),
  )

  pub tally_sound :
      (images : List ImageArchive) (n : ℕ) (severity : Counts)
      → ((tally images scans findings (n, severity)).0 ≡ expected_scanned images scans + n)
        × (total (tally images scans findings (n, severity)).1
            ≡ expected_findings images scans findings + total severity)
  unfolding tally expected_scanned expected_findings
  tally_sound [] n severity = (omega arith, omega arith)
  tally_sound (a ∷ images) n severity =
      let o = latest_completed_scan a.id scans in
      let next = with_completed o findings (n, severity) in
      let here = one_image o n severity in
      let rest = tally_sound images next.0 next.1 in
      (omega (arith, here.0, rest.0), omega (arith, here.1, rest.1))

-- The findings of the latest completed scan.
scan_findings-Latest :
    (i : ℕ) (scans : List Scan) (o : Option Scan) (findings : List Finding)
    → Latest i scans o
    → scan_findings o findings ≡ latest_findings i scans findings
unfolding findings_of
scan_findings-Latest i scans none [] h = refl
scan_findings-Latest i scans none (f ∷ fs) h =
    ground (arith, no_latest i f.scan_id scans h, scan_findings-Latest i scans none fs h)
scan_findings-Latest i scans (some s) [] h = refl
scan_findings-Latest i scans (some s) (f ∷ fs) h = ground (
  arith,
  is_latest_unique i f.scan_id s.id scans (h.1),
  scan_findings-Latest i scans (some s) fs h,
)

is_scanned-Latest :
    (i : ℕ) (scans : List Scan) (o : Option Scan)
    → Latest i scans o
    → is_scanned o ≡ (if any (completes i) scans then 1 else 0)
is_scanned-Latest i scans none h = rw h refl
is_scanned-Latest i scans (some s) (h, _) = rw h refl

-- One member row: the image that it adds to those of the group.
module _ (g : ℕ) (images : List ImageArchive) (scans : List Scan) (findings : List Finding) where
  -- The numbers of the images of a group, from its member rows.
  abbrev Agrees : List ImageGroupMember → List ImageArchive → Type 0
  Agrees members shown =
      (length shown ≡ visible_members g images members)
      × (expected_scanned shown scans ≡ scanned_members g images scans members)
      × (expected_findings shown scans findings ≡ member_findings g images scans findings members)

  Agrees-row :
      (x : ImageGroupMember) (members : List ImageGroupMember) (shown : List ImageArchive)
      (o : Option ImageArchive)
      → Table.get image_key x.image_id images ≡ o
      → Agrees members shown
      → Agrees (x ∷ members) (if x.group_id == g then visible_image o shown else shown)
  unfolding expected_scanned expected_findings
  Agrees-row x members shown none e (a, b, c) = elim (Bool-cases (x.group_id == g)) [
    | inl here ↦ rw (here, e) (a, b, omega (arith, c))
    | inr other ↦ rw other (a, b, omega (arith, c))
  ]
  Agrees-row x members shown (some y) e (a, b, c) =
      let same_id = Table.key-get image_key x.image_id images y e in
      let latest = latest_completed_scan-Latest x.image_id scans in
      let done =
        is_scanned-Latest x.image_id scans (latest_completed_scan x.image_id scans) latest in
      let found =
        scan_findings-Latest x.image_id scans (latest_completed_scan x.image_id scans) findings
          latest in
      elim (Bool-cases (x.group_id == g && not y.hidden)) [
        | inl here ↦ ground (arith, e, here, same_id, done, found, a, b, c)
        | inr other ↦ ground (arith, e, other, a, b, c)
      ]

  pub group_images-Agrees :
      (members : List ImageGroupMember) → Agrees members (group_images g images members)
  unfolding group_images expected_scanned expected_findings
  group_images-Agrees [] = (refl, refl, refl)
  group_images-Agrees (x ∷ members) =
      Agrees-row x members (group_images g images members) _ refl (group_images-Agrees members)
