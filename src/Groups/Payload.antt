-- ===== src/Groups/Payload.antt =====
-- backend/app/groups.py: the summaries of the groups and the overview. The members are taken in the
-- order of their rows, since a summary without its members does not show their order.
pub mod Counted
pub mod Latest
pub mod Totals
use layerscope.Base.{
  ℕ, suc, ◌+◌, ◌-◌, ◌≤◌, ◌≡◌, refl, sym, ap, ◌∙◌, arith, Bool, true, false, not, ◌&&◌, List, [],
  ◌∷◌, Option, none, some, ◌==◌, ltb, leb, length, select, map, if◌then◌else◌, Bool-cases, inl, inr,
}
use layerscope.Base.Table
use layerscope.Base.Text.{Text, text, same}
use layerscope.Models.{Time, ImageArchive, Scan, Finding, is_completed}
use layerscope.Scanner.Outside.{image_key}
use layerscope.Groups.{ImageGroup, ImageGroupMember, GroupDb}

-- A dictionary from severities to counts.
abbrev pub Counts : Type 0
Counts = List (Text × ℕ)

unfoldable pub get_count : Text → Counts → ℕ
get_count level [] = 0
get_count level ((l, n) ∷ rest) = if same l level then n else get_count level rest

-- `severity[level] = severity.get(level, 0) + count`
unfoldable pub add_count : Text → ℕ → Counts → Counts
add_count level n [] = (level, n) ∷ []
add_count level n ((l, k) ∷ rest) =
    let rest' = add_count level n rest in if same l level then (l, k + n) ∷ rest else (l, k) ∷ rest'

unfoldable pub add_counts : Counts → Counts → Counts
add_counts [] severity = severity
add_counts ((l, n) ∷ rest) severity = add_counts rest (add_count l n severity)

-- `sum(severity.values())`
unfoldable pub total : Counts → ℕ
total [] = 0
total ((l, n) ∷ rest) = n + total rest

-- `finding_counts`: the findings of a scan by severity.
unfoldable pub finding_counts : ℕ → List Finding → Counts
finding_counts i [] = []
finding_counts i (f ∷ fs) =
    let rest = finding_counts i fs in if f.scan_id == i then add_count f.severity 1 rest else rest

abbrev pub later : Scan → Option Scan → Option Scan
later s none = some s
later s (some t) = if leb t.id s.id then some s else some t

-- `latest_completed_scan`: of the completed scans of an image, the one with the greatest number.
unfoldable pub latest_completed_scan : ℕ → List Scan → Option Scan
latest_completed_scan i [] = none
latest_completed_scan i (s ∷ scans) =
    let rest = latest_completed_scan i scans in
    if s.image_id == i && is_completed s.status then later s rest else rest

-- The visible images of a group.
abbrev pub visible_image : Option ImageArchive → List ImageArchive → List ImageArchive
visible_image none rest = rest
visible_image (some a) rest = if a.hidden then rest else a ∷ rest

unfoldable pub group_images : ℕ → List ImageArchive → List ImageGroupMember → List ImageArchive
group_images g images [] = []
group_images g images (x ∷ members) =
    let rest = group_images g images members in
    if x.group_id == g then visible_image (Table.get image_key x.image_id images) rest else rest

pub data ScanStatus : Type 0 where
  empty unscanned partial scanned : ScanStatus

unfoldable pub scan_status_of : ℕ → ℕ → ℕ → ScanStatus
scan_status_of member_count scanned_count unscanned_count =
    if member_count == 0
    then empty
    else if scanned_count == 0
    then unscanned
    else if unscanned_count == 0
    then scanned
    else partial

pub record GroupSummary : Type 0 where
  pub id : ℕ
  pub name : Text
  pub description : Text
  pub color : Text
  pub member_count : ℕ
  pub scanned_count : ℕ
  pub unscanned_count : ℕ
  pub scan_status : ScanStatus
  pub highest_severity : Option Text
  pub severity : Counts
  pub total_findings : ℕ
  pub created_at : Time
  pub updated_at : Time

abbrev pub severity_order : List Text
severity_order = text "CRITICAL" ∷ text "HIGH" ∷ text "MEDIUM" ∷ text "LOW" ∷ text "UNKNOWN" ∷ []

-- `next((level for level in SEVERITY_ORDER if severity.get(level, 0) > 0), None)`
unfoldable pub highest : List Text → Counts → Option Text
highest [] severity = none
highest (level ∷ rest) severity =
    let lower = highest rest severity in
    if ltb 0 (get_count level severity) then some level else lower

-- The loop over the images of a group: its scanned images, and its severities.
abbrev pub with_completed : Option Scan → List Finding → ℕ × Counts → ℕ × Counts
with_completed none findings (n, severity) = (n, severity)
with_completed (some s) findings (n, severity) =
    (n + 1, add_counts (finding_counts s.id findings) severity)

unfoldable pub tally : List ImageArchive → List Scan → List Finding → ℕ × Counts → ℕ × Counts
tally [] scans findings acc = acc
tally (a ∷ images) scans findings acc =
    tally images scans findings (with_completed (latest_completed_scan a.id scans) findings acc)

-- One round of `group_payloads`.
unfoldable pub group_payload : GroupDb → ImageGroup → GroupSummary
group_payload db g =
    let images = group_images g.id db.images db.members in
    let counted = tally images db.scans db.findings (0, []) in
    let member_count = length images in
    record {
      id = g.id;
      name = g.name;
      description = g.description;
      color = g.color;
      member_count = member_count;
      scanned_count = counted.0;
      unscanned_count = member_count - counted.0;
      scan_status = scan_status_of member_count counted.0 (member_count - counted.0);
      highest_severity = highest severity_order counted.1;
      severity = counted.1;
      total_findings = total counted.1;
      created_at = g.created_at;
      updated_at = g.updated_at;
    }

pub record Overview : Type 0 where
  pub group_count : ℕ
  pub membership_count : ℕ
  pub scanned_membership_count : ℕ
  pub unscanned_membership_count : ℕ
  pub severity : Counts
  pub total_findings : ℕ
  pub statuses : Counts
  pub groups : List GroupSummary

abbrev pub sum_of : (GroupSummary → ℕ) → List GroupSummary → ℕ
sum_of f [] = 0
sum_of f (s ∷ rest) = f s + sum_of f rest

unfoldable pub merged : List GroupSummary → Counts → Counts
merged [] severity = severity
merged (s ∷ rest) severity = merged rest (add_counts s.severity severity)

abbrev pub status_name : ScanStatus → Text
status_name empty = text "empty"
status_name unscanned = text "unscanned"
status_name partial = text "partial"
status_name scanned = text "scanned"

-- `statuses[status] = statuses.get(status, 0) + 1`
unfoldable pub counted_statuses : List GroupSummary → Counts → Counts
counted_statuses [] statuses = statuses
counted_statuses (s ∷ rest) statuses =
    counted_statuses rest (add_count (status_name s.scan_status) 1 statuses)

-- `group_overview_payload`
unfoldable pub group_overview_payload : GroupDb → Overview
group_overview_payload db =
    let summaries = map (group_payload db) db.groups in
    let members = sum_of (λ s. s.member_count) summaries in
    let scanned_members = sum_of (λ s. s.scanned_count) summaries in
    record {
      group_count = length summaries;
      membership_count = members;
      scanned_membership_count = scanned_members;
      unscanned_membership_count = members - scanned_members;
      severity = merged summaries [];
      total_findings = total (merged summaries []);
      statuses = counted_statuses summaries [];
      groups = summaries;
    }
