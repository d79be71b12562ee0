-- ===== src/Requests/Submit.antt =====
-- backend/app/main.py: the request that starts scans. What it does under the admission lock is one
-- step.
use layerscope.Base.{
  ℕ, suc, ◌+◌, ◌≤◌, ◌≡◌, refl, ◌∙◌, Bool, true, false, not, ◌&&◌, List, [], ◌∷◌, ◌++◌, Option, none,
  some, ◌==◌, ltb, leb, length, select, arith, if◌then◌else◌, Bool-cases, inl, inr, is_some, any,
}
use layerscope.Base.Keys.{
  fromkeys, occurrences, occurrences-fromkeys, occurrences-select, occurrences-select_other,
}
use layerscope.Base.Text.{text, decimal}
use layerscope.Config.{Settings}
use layerscope.Models.{queued, Scan, ImageArchive}
use layerscope.Auth.{Reply, ok, http, first}
use layerscope.Qos.{DiskUsage, Capacity, require_storage_capacity}
use layerscope.Scanner.{ScanManager}
use layerscope.Scanner.Jobs.{enqueue}
use layerscope.Requests.{any_active, active_of, count_scans, scans-enqueue, Orderly}

-- `existing.get(image_id)`: of the active scans of an image, the one with the greatest number.
abbrev pub greater : Scan → Option Scan → Option Scan
greater s none = some s
greater s (some t) = if leb t.id s.id then some s else some t

unfoldable pub newest_active : ℕ → List Scan → Option Scan
newest_active j [] = none
newest_active j (s ∷ scans) =
    let rest = newest_active j scans in if active_of j s then greater s rest else rest

-- The images without an active scan.
abbrev pub fresh_images : List Scan → List ℕ → List ℕ
fresh_images scans ids = select (λ (j : ℕ). not (is_some (newest_active j scans))) ids

abbrev pub submitted : ℕ → ℕ → ℕ → Scan
submitted now new_id image_id = record {
  id = new_id;
  image_id = image_id;
  status = queued;
  progress = 0;
  stage = text "queued";
  message = text "Waiting for an available worker";
  queued_at = now;
  started_at = none;
  finished_at = none;
  updated_at = now;
  raw_json_path = none;
  error = none;
  coverage_warning = none;
}

-- The rows that are added; `keys` gives their numbers.
unfoldable pub new_scans : (ℕ → ℕ) → ℕ → ℕ → List ℕ → List Scan
new_scans keys now n [] = []
new_scans keys now n (j ∷ js) = submitted now (keys n) j ∷ new_scans keys now (suc n) js

unfoldable pub enqueue_new : (ℕ → ℕ) → ℕ → List ℕ → ScanManager → ScanManager
enqueue_new keys n [] m = m
enqueue_new keys n (j ∷ js) m = enqueue_new keys (suc n) js (enqueue (keys n) true m).0

-- The answer: the scan of each image, and the scans that were there.
pub record Submitted : Type 0 where
  pub scan_ids : List ℕ
  pub reused_scan_ids : List ℕ

unfoldable pub answer_for : (ℕ → ℕ) → List Scan → ℕ → List ℕ → Submitted
answer_for keys scans n [] = record { scan_ids = []; reused_scan_ids = [] }
answer_for keys scans n (j ∷ js) =
    let old = answer_for keys scans n js in
    let new = answer_for keys scans (suc n) js in
    elim (newest_active j scans) [
      | none ↦ record new { scan_ids = keys n ∷ new.scan_ids }
      | some s ↦ record {
        scan_ids = s.id ∷ old.scan_ids;
        reused_scan_ids = s.id ∷ old.reused_scan_ids;
      }
    ]

abbrev pub Answer : Type 0
Answer = ScanManager × Reply Submitted

module _ (c : Settings) (volume : DiskUsage) (host : Option DiskUsage)
    (readable : ImageArchive → Bool) (keys : ℕ → ℕ) where
  -- A visible image that can be read.
  abbrev pub available : List ImageArchive → ℕ → Bool
  available images j = any (λ (a : ImageArchive). a.id == j && not a.hidden && readable a) images

  -- Under the admission lock, for images that are all available.
  unfoldable pub admit_all : List ℕ → ScanManager → Answer
  admit_all ids m =
      let fresh = fresh_images m.scans ids in
      if ltb c.max_pending_scans (count_scans any_active m.scans + length fresh)
      then (
        m,
        http 429 (
            text "Scan queue capacity is "
            ++ (decimal c.max_pending_scans ++ text "; cancel work or wait for jobs to finish")),
      )
      else (
        enqueue_new keys 0 fresh (record m { scans = m.scans ++ new_scans keys m.clock 0 fresh }),
        ok (answer_for keys m.scans 0 ids),
      )

  abbrev pub check_images : Option ℕ → List ℕ → ScanManager → Answer
  check_images (some j) ids m = (
    m,
    http 400 (text "Image " ++ (decimal j ++ text " is unavailable or outside configured roots")),
  )
  check_images none ids m = admit_all ids m

  abbrev pub after_capacity : Reply Capacity → List ℕ → ScanManager → Answer
  after_capacity (http code message) ids m = (m, http code message)
  after_capacity (ok capacity) ids m =
      check_images (first (λ (j : ℕ). not (available m.images j)) ids) ids m

  -- `scans`
  unfoldable pub submit : List ℕ → ScanManager → Answer
  submit [] m = (m, http 400 (text "Select at least one image"))
  submit (j ∷ js) m =
      after_capacity (require_storage_capacity c volume host 0) (fromkeys (j ∷ js)) m

scans-enqueue_new :
    (keys : ℕ → ℕ) (n : ℕ) (js : List ℕ) (m : ScanManager)
    → (enqueue_new keys n js m).scans ≡ m.scans
unfolding enqueue_new
scans-enqueue_new keys n [] m = refl
scans-enqueue_new keys n (j ∷ js) m =
    scans-enqueue_new keys (suc n) js (enqueue (keys n) true m).0 ∙ scans-enqueue (keys n) true m

count-append :
    (p : Scan → Bool) (xs ys : List Scan)
    → count_scans p (xs ++ ys) ≡ count_scans p xs + count_scans p ys
unfolding count_scans
count-append p [] ys = omega arith
count-append p (x ∷ xs) ys = ground (arith, count-append p xs ys)

module _ (keys : ℕ → ℕ) (now : ℕ) where
  count-new_scans :
      (n : ℕ) (js : List ℕ) → count_scans any_active (new_scans keys now n js) ≡ length js
  unfolding count_scans new_scans
  count-new_scans n [] = refl
  count-new_scans n (j ∷ js) = omega (arith, count-new_scans (suc n) js)

  count-new_scans_of :
      (i n : ℕ) (js : List ℕ)
      → count_scans (active_of i) (new_scans keys now n js) ≡ occurrences i js
  unfolding count_scans new_scans occurrences
  count-new_scans_of i n [] = refl
  count-new_scans_of i n (j ∷ js) = ground (arith, count-new_scans_of i (suc n) js)

greater_some : (s : Scan) (o : Option Scan) → is_some (greater s o) ≡ true
greater_some s none = refl
greater_some s (some t) = ground arith

no_active :
    (j : ℕ) (scans : List Scan)
    → is_some (newest_active j scans) ≡ false
    → count_scans (active_of j) scans ≡ 0
unfolding newest_active count_scans
no_active j [] h = refl
no_active j (s ∷ scans) h =
    ground (arith, h, greater_some s (newest_active j scans), no_active j scans)

module _ (c : Settings) (keys : ℕ → ℕ) (m : ScanManager) (ids : List ℕ) where
  -- The images of the new scans are all different and had no active scan.
  one_more :
      (j : ℕ)
      → occurrences j ids ≤ 1
      → count_scans (active_of j) m.scans ≤ 1
      → count_scans (active_of j) (m.scans ++ new_scans keys m.clock 0 (fresh_images m.scans ids))
        ≤ 1
  one_more j distinct single =
      let idle = λ (i : ℕ). not (is_some (newest_active i m.scans)) in
      let appended =
        count-append (active_of j) m.scans (new_scans keys m.clock 0 (fresh_images m.scans ids)) in
      let added = count-new_scans_of keys m.clock j 0 (fresh_images m.scans ids) in
      elim (Bool-cases (is_some (newest_active j m.scans))) [
        | inl e ↦
            let none_added = occurrences-select_other idle j ids (rw e refl) in
            omega (arith, appended, added, none_added, single)
        | inr e ↦
            let few = occurrences-select idle j ids in
            omega (arith, appended, added, few, distinct, no_active j m.scans e)
      ]

module _ (c : Settings) (volume : DiskUsage) (host : Option DiskUsage)
    (readable : ImageArchive → Bool) (keys : ℕ → ℕ) where
  admit_all-Orderly :
      (ids : List ℕ) (m : ScanManager)
      → ((j : ℕ) → occurrences j ids ≤ 1)
      → Orderly c m
      → Orderly c (admit_all c volume host readable keys ids m).0
  unfolding admit_all
  admit_all-Orderly ids m distinct (capacity, single) =
      let fresh = fresh_images m.scans ids in
      let m' = record m { scans = m.scans ++ new_scans keys m.clock 0 fresh } in
      elim (Bool-cases (ltb c.max_pending_scans (count_scans any_active m.scans + length fresh))) [
        | inl f ↦ rw f (capacity, single)
        | inr f ↦
            rw (f, scans-enqueue_new keys 0 fresh m')
              (
                ground (
                  arith,
                  f,
                  count-append any_active m.scans (new_scans keys m.clock 0 fresh),
                  count-new_scans keys m.clock 0 fresh,
                ),
                λ j. one_more c keys m ids j (distinct j) (single j),
              )
      ]

  check_images-Orderly :
      (o : Option ℕ) (ids : List ℕ) (m : ScanManager)
      → ((j : ℕ) → occurrences j ids ≤ 1)
      → Orderly c m
      → Orderly c (check_images c volume host readable keys o ids m).0
  check_images-Orderly (some j) ids m distinct h = h
  check_images-Orderly none ids m distinct h = admit_all-Orderly ids m distinct h

  after_capacity-Orderly :
      (r : Reply Capacity) (ids : List ℕ) (m : ScanManager)
      → ((j : ℕ) → occurrences j ids ≤ 1)
      → Orderly c m
      → Orderly c (after_capacity c volume host readable keys r ids m).0
  after_capacity-Orderly (http code message) ids m distinct h = h
  after_capacity-Orderly (ok capacity) ids m distinct h = check_images-Orderly _ ids m distinct h

  -- A request for scans, whatever it answers and however often it names an image, keeps the active
  -- scans within the capacity of the queue, and one active scan at most for each image.
  pub submit-Orderly :
      (ids : List ℕ) (m : ScanManager)
      → Orderly c m
      → Orderly c (submit c volume host readable keys ids m).0
  unfolding submit
  submit-Orderly [] m h = h
  submit-Orderly (i ∷ is) m h =
      after_capacity-Orderly (require_storage_capacity c volume host 0) (fromkeys (i ∷ is)) m
        (λ j. occurrences-fromkeys j (i ∷ is)) h
