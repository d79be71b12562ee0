-- ===== src/Groups/Payload/Latest.antt =====
-- The latest completed scan of an image, and the members of a group, as the tables show them.
use layerscope.Base.{
  ℕ, ◌+◌, ◌≤◌, ◌≡◌, refl, ap, arith, Bool, true, false, not, ◌&&◌, ◌||◌, List, [], ◌∷◌, Option,
  none, some, ◌==◌, leb, any, all, length, select, if◌then◌else◌, Bool-cases, inl, inr,
}
use layerscope.Base.Table
use layerscope.Models.{ImageArchive, Scan, Finding, is_completed}
use layerscope.Scanner.Outside.{image_key}
use layerscope.Groups.{ImageGroupMember}
use layerscope.Groups.Payload.{latest_completed_scan, later}

abbrev pub completes : ℕ → Scan → Bool
completes i s = s.image_id == i && is_completed s.status

-- A number that some completed scan of the image has, and one that none of them exceeds.
abbrev pub has_number : ℕ → ℕ → Scan → Bool
has_number i k s = completes i s && s.id == k

abbrev pub not_above : ℕ → ℕ → Scan → Bool
not_above i k s = not (completes i s) || leb s.id k

-- The number is the one of the image's latest completed scan.
abbrev pub is_latest : ℕ → List Scan → ℕ → Bool
is_latest i scans k = any (has_number i k) scans && all (not_above i k) scans

-- What `latest_completed_scan` must answer.
abbrev pub Latest : ℕ → List Scan → Option Scan → Type 0
Latest i scans none = any (completes i) scans ≡ false
Latest i scans (some s) = (any (completes i) scans ≡ true) × (is_latest i scans s.id ≡ true)

not_above-weaken :
    (i k n : ℕ) (scans : List Scan)
    → k ≤ n
    → all (not_above i k) scans ≡ true
    → all (not_above i n) scans ≡ true
not_above-weaken i k n [] e h = refl
not_above-weaken i k n (s ∷ scans) e h = ground (arith, e, h, not_above-weaken i k n scans e)

none-not_above :
    (i k : ℕ) (scans : List Scan)
    → any (completes i) scans ≡ false
    → all (not_above i k) scans ≡ true
none-not_above i k [] h = refl
none-not_above i k (s ∷ scans) h = ground (arith, h, none-not_above i k scans)

later-Latest :
    (i : ℕ) (s : Scan) (scans : List Scan) (o : Option Scan)
    → completes i s ≡ true
    → Latest i scans o
    → Latest i (s ∷ scans) (later s o)
later-Latest i s scans none c h = ground (arith, c, none-not_above i s.id scans h)
later-Latest i s scans (some t) c (some_one, h) = elim (Bool-cases (leb t.id s.id)) [
  | inl e ↦ rw e ground (arith, c, h, e, not_above-weaken i t.id s.id scans)
  | inr e ↦ rw e ground (arith, c, h, e)
]

pub latest_completed_scan-Latest :
    (i : ℕ) (scans : List Scan) → Latest i scans (latest_completed_scan i scans)
unfolding latest_completed_scan
latest_completed_scan-Latest i [] = refl
latest_completed_scan-Latest i (s ∷ scans) =
    elim (Bool-cases (s.image_id == i && is_completed s.status)) [
      | inl e ↦ rw e (
          later-Latest i s scans (latest_completed_scan i scans) e
            (latest_completed_scan-Latest i scans))
      | inr e ↦
          rw e (
            skip i s scans (latest_completed_scan i scans) e (latest_completed_scan-Latest i scans))
    ]
  where
    skip :
        (i : ℕ) (s : Scan) (scans : List Scan) (o : Option Scan)
        → completes i s ≡ false
        → Latest i scans o
        → Latest i (s ∷ scans) o
    skip i s scans none e h = ground (arith, e, h)
    skip i s scans (some t) e h = ground (arith, e, h)

-- No number of a completed scan is above one that none exceeds.
number-le :
    (i k n : ℕ) (scans : List Scan)
    → any (has_number i k) scans ≡ true
    → all (not_above i n) scans ≡ true
    → k ≤ n
number-le i k n [] h e = ground (arith, h)
number-le i k n (s ∷ scans) h e = ground (arith, h, e, number-le i k n scans)

-- Only one number is the latest.
pub is_latest_unique :
    (i k n : ℕ) (scans : List Scan) → is_latest i scans n ≡ true → is_latest i scans k ≡ (k == n)
is_latest_unique i k n scans h = elim (Bool-cases (is_latest i scans k)) [
  | inl e ↦ ground (arith, e, h, number-le i k n scans, number-le i n k scans)
  | inr e ↦ elim (Bool-cases (k == n)) [
    | inl f ↦
        (let same : k ≡ n = ground (arith, f) in ground (arith, e, h, ap (is_latest i scans) same))
    | inr f ↦ rw (e, f) refl
  ]
]

pub no_latest :
    (i k : ℕ) (scans : List Scan) → any (completes i) scans ≡ false → is_latest i scans k ≡ false
no_latest i k scans h = ground (arith, h, none_has scans h)
  where
    none_has :
        (scans : List Scan) → any (completes i) scans ≡ false → any (has_number i k) scans ≡ false
    none_has [] h = refl
    none_has (s ∷ scans) h = ground (arith, h, none_has scans)

-- The member row is one of the group, and its image is visible.
abbrev pub is_visible : Option ImageArchive → Bool
is_visible none = false
is_visible (some a) = not a.hidden

abbrev pub shows : ℕ → List ImageArchive → ImageGroupMember → Bool
shows g images x = x.group_id == g && is_visible (Table.get image_key x.image_id images)

-- The visible members of a group, those with a completed scan, and the findings of the latest completed
-- scan of each.
abbrev pub visible_members : ℕ → List ImageArchive → List ImageGroupMember → ℕ
visible_members g images members = length (select (shows g images) members)

abbrev pub scanned_members : ℕ → List ImageArchive → List Scan → List ImageGroupMember → ℕ
scanned_members g images scans members = length (
    select (λ (x : ImageGroupMember). shows g images x && any (completes x.image_id) scans) members)

abbrev pub latest_findings : ℕ → List Scan → List Finding → ℕ
latest_findings i scans findings =
    length (select (λ (f : Finding). is_latest i scans f.scan_id) findings)

abbrev pub member_findings :
    ℕ → List ImageArchive → List Scan → List Finding → List ImageGroupMember → ℕ
member_findings g images scans findings [] = 0
member_findings g images scans findings (x ∷ members) =
    (if shows g images x then latest_findings x.image_id scans findings else 0)
    + member_findings g images scans findings members
