-- ===== src/Requests.antt =====
-- backend/app/main.py: the requests that cancel and retry a scan. The admission lock makes the part
-- of a retry that counts and adds one step. `readable` is the test of an archive's path against the
-- configured roots and the file system.
pub mod Removal
pub mod Submit
use layerscope.Base.{
  ℕ, ◌+◌, ◌≤◌, ◌≡◌, refl, sym, ap, ◌∙◌, Bool, true, false, ◌&&◌, List, [], ◌∷◌, ◌++◌, Option, none,
  some, ◌==◌, leb, length, select, arith, if◌then◌else◌, Bool-cases, inl, inr, add, ==_iff,
}
use layerscope.Base.Table
use layerscope.Base.Text.{Text, text, decimal}
use layerscope.Config.{Settings}
use layerscope.Models.{
  Status, queued, running, completed, failed, cancelled, is_active, Scan, ImageArchive,
}
use layerscope.Auth.{Reply, ok, http, first}
use layerscope.Qos.{DiskUsage, Capacity, require_storage_capacity}
use layerscope.Scanner.{ScanManager, get_scan}
use layerscope.Scanner.Jobs.{cancel, enqueue}
use layerscope.Scanner.Outside.{image_key}
use layerscope.Scanner.Rows.{scans-publish_job}

abbrev pub status_name : Status → Text
status_name queued = text "queued"
status_name running = text "running"
status_name completed = text "completed"
status_name failed = text "failed"
status_name cancelled = text "cancelled"

abbrev pub cancel_answer : Option Status → Reply Status
cancel_answer none = http 404 (text "Scan job not found")
cancel_answer (some cancelled) = ok cancelled
cancel_answer (some status) =
    http 409 (text "A " ++ (status_name status ++ text " job cannot be cancelled"))

-- `cancel_job`
unfoldable pub cancel_job : ℕ → ScanManager → ScanManager × Reply Status
cancel_job i m = let (m', status) = cancel i m in (m', cancel_answer status)

abbrev pub can_retry : Status → Bool
can_retry queued = false
can_retry running = false
can_retry completed = false
can_retry failed = true
can_retry cancelled = true

abbrev pub any_active : Scan → Bool
any_active s = is_active s.status

abbrev pub active_of : ℕ → Scan → Bool
active_of image_id s = s.image_id == image_id && is_active s.status

unfoldable pub count_scans : (Scan → Bool) → List Scan → ℕ
count_scans p scans = length (select p scans)

abbrev pub replacement : ℕ → ℕ → Scan → Scan
replacement now new_id original = record {
  id = new_id;
  image_id = original.image_id;
  status = queued;
  progress = 0;
  stage = text "queued";
  message = text "Retry of scan #" ++ decimal original.id;
  queued_at = now;
  started_at = none;
  finished_at = none;
  updated_at = now;
  raw_json_path = none;
  error = none;
  coverage_warning = none;
}

abbrev pub Retried : Type 0
Retried = ScanManager × Reply (ℕ × Bool)

-- Under the admission lock: the scan of the image that is active already, or a new one.
abbrev pub admit : Settings → ℕ → Scan → Option Scan → ScanManager → Retried
admit c new_id original (some active) m = (m, ok (active.id, true))
admit c new_id original none m =
    if leb c.max_pending_scans (count_scans any_active m.scans)
    then (m, http 429 (text "Scan queue is at capacity; cancel work or wait for a job to finish"))
    else (
      (enqueue new_id true
          (record m { scans = m.scans ++ (replacement m.clock new_id original ∷ []) })).0,
      ok (new_id, false),
    )

abbrev pub after_storage : Settings → ℕ → Scan → Reply Capacity → ScanManager → Retried
after_storage c new_id original (http code message) m = (m, http code message)
after_storage c new_id original (ok capacity) m =
    admit c new_id original (first (active_of original.image_id) m.scans) m

module _ (c : Settings) (volume : DiskUsage) (host : Option DiskUsage)
    (readable : ImageArchive → Bool) (new_id : ℕ) where
  abbrev pub retry_image : Scan → Option ImageArchive → ScanManager → Retried
  retry_image original none m = (m, http 500 (text "Internal Server Error"))
  retry_image original (some image) m =
      if readable image
      then after_storage c new_id original (require_storage_capacity c volume host 0) m
      else (m, http 400 (text "The image archive is unavailable or outside configured roots"))

  abbrev pub retry_found : Option Scan → ScanManager → Retried
  retry_found none m = (m, http 404 (text "Scan job not found"))
  retry_found (some original) m =
      if can_retry original.status
      then retry_image original (Table.get image_key original.image_id m.images) m
      else (m, http 409 (text "Only failed or cancelled jobs can be retried"))

  -- `retry_job`
  unfoldable pub retry_job : ℕ → ScanManager → Retried
  retry_job i m = retry_found (get_scan m i) m

pub scans-enqueue : (i : ℕ) (b : Bool) (m : ScanManager) → (enqueue i b m).0.scans ≡ m.scans
unfolding enqueue
scans-enqueue i b m = ground (
  arith,
  scans-publish_job i (record m { queued_ids = add i m.queued_ids; queue = m.queue ++ (i ∷ []) }),
)

count_scans-append :
    (p : Scan → Bool) (xs : List Scan) (s : Scan)
    → count_scans p (xs ++ (s ∷ [])) ≡ count_scans p xs + count_scans p (s ∷ [])
unfolding count_scans
count_scans-append p [] s = omega arith
count_scans-append p (x ∷ xs) s = ground (arith, count_scans-append p xs s)

-- What a retry keeps: the active scans within the capacity, and one at most for each image.
abbrev pub Orderly : Settings → ScanManager → Type 0
Orderly c m =
    (count_scans any_active m.scans ≤ c.max_pending_scans)
    × ((j : ℕ) → count_scans (active_of j) m.scans ≤ 1)

none_active :
    (j : ℕ) (scans : List Scan)
    → first (active_of j) scans ≡ none
    → count_scans (active_of j) scans ≡ 0
unfolding first count_scans
none_active j [] h = refl
none_active j (s ∷ scans) h = ground (arith, h, none_active j scans)

module _ (c : Settings) (new_id : ℕ) (original : Scan) where
  added_one :
      (m : ScanManager) (j : ℕ)
      → first (active_of original.image_id) m.scans ≡ none
      → count_scans (active_of j) m.scans ≤ 1
      → count_scans (active_of j) (m.scans ++ (replacement m.clock new_id original ∷ [])) ≤ 1
  unfolding count_scans
  added_one m j e h = elim (Bool-cases (original.image_id == j)) [
    | inl same ↦
        let none_here =
          ap (λ (i : ℕ). first (active_of i) m.scans) (sym ((==_iff original.image_id j).0 same))
          ∙ e in
        ground (
          arith,
          same,
          none_active j m.scans none_here,
          count_scans-append (active_of j) m.scans (replacement m.clock new_id original),
        )
    | inr other ↦ ground (
      arith,
      h,
      other,
      count_scans-append (active_of j) m.scans (replacement m.clock new_id original),
    )
  ]

  admit-Orderly :
      (o : Option Scan) (m : ScanManager)
      → first (active_of original.image_id) m.scans ≡ o
      → Orderly c m
      → Orderly c (admit c new_id original o m).0
  unfolding count_scans
  admit-Orderly (some active) m e h = h
  admit-Orderly none m e (capacity, single) =
      elim (Bool-cases (leb c.max_pending_scans (count_scans any_active m.scans))) [
        | inl f ↦ rw f (capacity, single)
        | inr f ↦
            let m' = record m { scans = m.scans ++ (replacement m.clock new_id original ∷ []) } in
            rw (f, scans-enqueue new_id true m')
              (
                ground (
                  arith,
                  f,
                  count_scans-append any_active m.scans (replacement m.clock new_id original),
                ),
                λ j. added_one m j e (single j),
              )
      ]

module _ (c : Settings) (volume : DiskUsage) (host : Option DiskUsage)
    (readable : ImageArchive → Bool) (new_id : ℕ) where
  retry_image-Orderly :
      (original : Scan) (o : Option ImageArchive) (m : ScanManager)
      → Orderly c m
      → Orderly c (retry_image c volume host readable new_id original o m).0
  retry_image-Orderly original none m h = h
  retry_image-Orderly original (some image) m h = elim (Bool-cases (readable image)) [
    | inl e ↦ rw e (after (require_storage_capacity c volume host 0))
    | inr e ↦ rw e h
  ]
    where
      after : (r : Reply Capacity) → Orderly c (after_storage c new_id original r m).0
      after (http code message) = h
      after (ok capacity) =
          admit-Orderly c new_id original (first (active_of original.image_id) m.scans) m refl h

  retry_found-Orderly :
      (o : Option Scan) (m : ScanManager)
      → Orderly c m
      → Orderly c (retry_found c volume host readable new_id o m).0
  retry_found-Orderly none m h = h
  retry_found-Orderly (some original) m h = elim (Bool-cases (can_retry original.status)) [
    | inl e ↦
        rw e (retry_image-Orderly original (Table.get image_key original.image_id m.images) m h)
    | inr e ↦ rw e h
  ]

  -- A retry, whatever it answers, keeps the active scans within the capacity of the queue, and one
  -- active scan at most for each image.
  pub retry_job-Orderly :
      (i : ℕ) (m : ScanManager)
      → Orderly c m
      → Orderly c (retry_job c volume host readable new_id i m).0
  unfolding retry_job
  retry_job-Orderly i m h = retry_found-Orderly (get_scan m i) m h
