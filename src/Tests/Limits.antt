-- ===== src/Tests/Limits.antt =====
-- Runs of the storage check, of the attempt limit and of a retry and a removal.
use layerscope.Base.{ℕ, ◌+◌, ◌≤◌, ◌≡◌, refl, Bool, true, false, List, [], ◌∷◌, some, arith}
use layerscope.Qos.{
  DiskUsage, granted, require_storage_capacity, storage_capacity, require_storage_capacity-headroom,
}
use layerscope.Qos.Limiter.{Limiter}
use layerscope.Models.{ImageArchive, Scan, failed}
use layerscope.Requests.Submit.{submit, submit-Orderly}
use layerscope.Requests.{Orderly, count_scans, retry_job, retry_job-Orderly}
use layerscope.Scanner.{ScanManager}
use layerscope.Tests.Samples.{sample_settings, sample_manager, sample_scan}

abbrev volume : DiskUsage
volume = record { total = 900000000; free = 400000000 }

abbrev host : DiskUsage
host = record { total = 900000000; free = 300000000 }

enough : granted (require_storage_capacity sample_settings volume (some host) 1000) ≡ true
unfolding require_storage_capacity storage_capacity
enough = refl

require_storage_capacity-headroom_example :
    (67108864 + 1000 ≤ 400000000) × (67108864 + 1000 ≤ 300000000)
require_storage_capacity-headroom_example =
    require_storage_capacity-headroom sample_settings volume (some host) 1000 enough

abbrev address : List ℕ
address = b'a' ∷ []

abbrev one_attempt : Limiter
one_attempt = record { attempts = record { key = address; times = 5 ∷ [] } ∷ []; requests = 1 }

abbrev failed_manager : ScanManager
failed_manager = record (sample_manager false) {
  scans = record sample_scan { status = failed } ∷ [];
}

failed-Orderly : Orderly sample_settings failed_manager
unfolding count_scans
failed-Orderly = (omega arith, λ j. ground arith)

abbrev always_readable : ImageArchive → Bool
always_readable image = true

retry_job-Orderly_example :
    Orderly sample_settings
      (retry_job sample_settings volume (some host) always_readable 2 1 failed_manager).0
retry_job-Orderly_example =
    retry_job-Orderly sample_settings volume (some host) always_readable 2 1 failed_manager
      failed-Orderly

abbrev numbers : ℕ → ℕ
numbers n = n + 2

-- The image is named twice; its scan has failed, so that a new one is made.
submit-Orderly_example :
    Orderly sample_settings
      (submit sample_settings volume
        (some host)
        always_readable
        numbers
        (7 ∷ 7 ∷ [])
        failed_manager).0
submit-Orderly_example =
    submit-Orderly sample_settings volume (some host) always_readable numbers (7 ∷ 7 ∷ [])
      failed_manager failed-Orderly

abbrev failed_scan : Scan
failed_scan = record sample_scan { status = failed }

abbrev not_imported : Scan → Bool
not_imported s = false

abbrev anywhere : List ℕ → Bool
anywhere path = true

abbrev no_failure : List ℕ → Bool
no_failure path = false
