-- ===== src/Reports/Export/Shown.antt =====
-- The members of a group export, as the tables show them.
use layerscope.Base.{
  ℕ, ◌+◌, ◌≤◌, ◌≡◌, refl, sym, arith, Bool, true, false, not, ◌&&◌, ◌||◌, List, [], ◌∷◌, Option,
  none, some, ◌==◌, length, select, any, all, min, is_some, member, Bool-cases, inl, inr, ==_refl,
}
use layerscope.Base.Keys.{fromkeys, member-fromkeys}
use layerscope.Models.{ImageArchive, Scan}
use layerscope.Groups.{GroupDb, is_member, ImageGroupMember}
use layerscope.Groups.Payload.{latest_completed_scan}
use layerscope.Groups.Payload.Latest.{completes, is_latest, Latest, latest_completed_scan-Latest}
use layerscope.Reports.Export.{
  Exported, exported, export_error, Selection, max_reports, max_unscanned_sample, in_groups,
  has_scan,
}

module _ (ids : List ℕ) (db : GroupDb) where
  -- The image is visible and is in one of the groups.
  abbrev pub visible_in : ImageArchive → Bool
  visible_in a =
      not a.hidden
      && any (λ (x : ImageGroupMember). member x.group_id ids && x.image_id == a.id) db.members

  abbrev pub scanned_in : ImageArchive → Bool
  scanned_in a = visible_in a && any (completes a.id) db.scans

  -- The number is the one of the latest completed scan of such an image.
  abbrev pub is_report : ℕ → Bool
  is_report k = any (λ (a : ImageArchive). visible_in a && is_latest a.id db.scans k) db.images

  -- What a selection promises.
  abbrev pub IsComplete : Exported Selection → Type 0
  IsComplete (export_error code message) = Unit
  IsComplete (exported s) =
      (1 ≤ s.included_scan_count)
      × (s.included_scan_count ≤ max_reports)
      × (s.member_count ≡ length (select visible_in db.images))
      × (s.included_scan_count ≡ length (select scanned_in db.images))
      × (s.included_scan_count + s.unscanned_member_count ≡ s.member_count)
      × (length s.scan_ids ≡ s.included_scan_count)
      × (all is_report s.scan_ids ≡ true)
      × (length s.unscanned_members ≡ min max_unscanned_sample s.unscanned_member_count)

-- The groups of an image, taken group by group or row by row.
any_of_group :
    (g i : ℕ) (ks : List ℕ) (members : List ImageGroupMember)
    → any (λ (x : ImageGroupMember). member x.group_id (g ∷ ks) && x.image_id == i) members ≡ (
        any (λ (x : ImageGroupMember). x.group_id == g && x.image_id == i) members
        || any (λ (x : ImageGroupMember). member x.group_id ks && x.image_id == i) members)
any_of_group g i ks [] = refl
any_of_group g i ks (x ∷ members) = ground (arith, any_of_group g i ks members)

any_of_none :
    (i : ℕ) (members : List ImageGroupMember)
    → any (λ (x : ImageGroupMember). member x.group_id [] && x.image_id == i) members ≡ false
any_of_none i [] = refl
any_of_none i (x ∷ members) = any_of_none i members

by_rows :
    (i : ℕ) (ks : List ℕ) (members : List ImageGroupMember)
    → any (λ g. is_member g i members) ks
      ≡ any (λ (x : ImageGroupMember). member x.group_id ks && x.image_id == i) members
unfolding is_member
by_rows i [] members = sym (any_of_none i members)
by_rows i (g ∷ ks) members = ground (arith, by_rows i ks members, any_of_group g i ks members)

any-fromkeys :
    (i : ℕ) (ids : List ℕ) (members : List ImageGroupMember)
    → any (λ (x : ImageGroupMember). member x.group_id (fromkeys ids) && x.image_id == i) members
      ≡ any (λ (x : ImageGroupMember). member x.group_id ids && x.image_id == i) members
any-fromkeys i ids [] = refl
any-fromkeys i ids (x ∷ members) =
    ground (arith, member-fromkeys x.group_id ids, any-fromkeys i ids members)

pub in_groups-visible_in :
    (ids : List ℕ) (db : GroupDb) (a : ImageArchive)
    → in_groups (fromkeys ids) db a ≡ visible_in ids db a
in_groups-visible_in ids db a =
    ground (arith, by_rows a.id (fromkeys ids) db.members, any-fromkeys a.id ids db.members)

module _ {A : Type 0} (p q : A → Bool) where
  pub select_same : (xs : List A) → ((x : A) → p x ≡ q x) → select p xs ≡ select q xs
  select_same [] h = refl
  select_same (x ∷ xs) h = ground (arith, h x, select_same xs h)

  pub select_both :
      (xs : List A) → length (select q (select p xs)) ≡ length (select (λ x. p x && q x) xs)
  select_both [] = refl
  select_both (x ∷ xs) = ground (arith, select_both xs)

-- The images that a selection keeps are found by their numbers.
module _ (v : ImageArchive → Bool) where
  abbrev pub shown_id : List ImageArchive → ImageArchive → Bool
  shown_id images a = any (λ (b : ImageArchive). v b && b.id == a.id) images

  shown_more :
      (b : ImageArchive) (images xs : List ImageArchive)
      → all (shown_id images) xs ≡ true
      → all (shown_id (b ∷ images)) xs ≡ true
  shown_more b images [] h = refl
  shown_more b images (x ∷ xs) h = ground (arith, h, shown_more b images xs)

  pub select_shown : (images : List ImageArchive) → all (shown_id images) (select v images) ≡ true
  select_shown [] = refl
  select_shown (a ∷ images) =
      ground (arith, select_shown images, shown_more a images (select v images), ==_refl a.id)

  pub shown_latest :
      (j k : ℕ) (scans : List Scan) (images : List ImageArchive)
      → any (λ (b : ImageArchive). v b && b.id == j) images ≡ true
      → is_latest j scans k ≡ true
      → any (λ (b : ImageArchive). v b && is_latest b.id scans k) images ≡ true
  shown_latest j k scans [] h e = ground (arith, h)
  shown_latest j k scans (b ∷ images) h e = elim (Bool-cases (v b && b.id == j)) [
    | inl here ↦ (let same : b.id ≡ j = ground (arith, here) in rw same ground (arith, here, e))
    | inr other ↦ ground (arith, h, other, shown_latest j k scans images, e)
  ]

pub has_scan-completes :
    (db : GroupDb) (a : ImageArchive) → has_scan db a ≡ any (completes a.id) db.scans
has_scan-completes db a =
    of (latest_completed_scan a.id db.scans) (latest_completed_scan-Latest a.id db.scans)
  where
    of : (o : Option Scan) → Latest a.id db.scans o → is_some o ≡ any (completes a.id) db.scans
    of none h = sym h
    of (some s) (h, _) = sym h
