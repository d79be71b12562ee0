-- ===== src/Scanner/Rows.antt =====
-- What each operation of the scan manager does to the row of a scan.
use mathlib.Core.Option
use layerscope.Base.{
  ℕ, Bool, [], ◌∷◌, add, discard, ◌++◌, ◌≡◌, refl, ap, arith, ◌==◌, if◌then◌else◌,
}
use layerscope.Base.Table
use layerscope.Base.Text.{Text, or_text}
use layerscope.Models.{Scan, is_cancelled, is_terminal}
use layerscope.Security.{Roots, sanitize_untrusted_text}
use layerscope.Scanner.{ScanManager, get_scan, put_scan, scan_key}
use layerscope.Scanner.Events.{publish, publish_job}
use layerscope.Scanner.Jobs.{
  enqueue, cancel, cancelled_scan, terminate, Patch, patched, update_job, Exception, failed_scan,
  fail_job,
}

pub scans-publish_job : (i : ℕ) (m : ScanManager) → (publish_job i m).scans ≡ m.scans
unfolding publish_job publish
scans-publish_job i m = ground arith

module _ (m : ScanManager) (i j : ℕ) where
  pub get-publish_job : get_scan (publish_job i m) j ≡ get_scan m j
  get-publish_job = ap (Table.get scan_key j) (scans-publish_job i m)

  pub get-put :
      (f : Scan → Scan)
      → ((s : Scan) → (f s).id ≡ s.id)
      → get_scan (put_scan m i f) j ≡ (if i == j then Option.map f (get_scan m j) else get_scan m j)
  get-put f h = Table.get-modify scan_key i j f m.scans h

-- The text that `fail_job` stores.
abbrev pub failure : Roots → Exception → Text
failure roots e = or_text (sanitize_untrusted_text roots e.message 4000) e.class_name

-- A cancelled scan is left alone.
abbrev pub unless_cancelled : (Scan → Scan) → Scan → Scan
unless_cancelled f s = if is_cancelled s.status then s else f s

abbrev pub unless_terminal : (Scan → Scan) → Scan → Scan
unless_terminal f s = if is_terminal s.status then s else f s

module _ (i j : ℕ) (m : ScanManager) where
  pub get-update_job :
      (p : Patch)
      → get_scan (update_job i p m).0 j ≡ (
          if i == j
          then Option.map (unless_cancelled (patched p m.clock)) (get_scan m j)
          else get_scan m j)
  unfolding update_job
  get-update_job p = ground (
    arith,
    get-publish_job (put_scan m i (patched p m.clock)) i j,
    get-put m i j (patched p m.clock) (λ s. refl),
  )

  pub get-fail_job :
      (roots : Roots) (e : Exception)
      → get_scan (fail_job roots i e m) j ≡ (
          if i == j
          then Option.map (unless_cancelled (failed_scan (failure roots e) m.clock)) (get_scan m j)
          else get_scan m j)
  unfolding fail_job
  get-fail_job roots e = ground (
    arith,
    get-publish_job (put_scan m i (failed_scan (failure roots e) m.clock)) i j,
    get-put m i j (failed_scan (failure roots e) m.clock) (λ s. refl),
  )

  pub get-terminate : get_scan (terminate i m) j ≡ get_scan m j
  unfolding terminate
  get-terminate = refl

  pub get-enqueue : (b : Bool) → get_scan (enqueue i b m).0 j ≡ get_scan m j
  unfolding enqueue
  get-enqueue b = ground (
    arith,
    get-publish_job (record m { queued_ids = add i m.queued_ids; queue = m.queue ++ (i ∷ []) }) i j,
  )

  pub get-cancel : get_scan (cancel i m).0 j ≡ (
      if i == j
      then Option.map (unless_terminal (cancelled_scan m.clock)) (get_scan m j)
      else get_scan m j)
  unfolding cancel
  get-cancel =
      let m' = put_scan m i (cancelled_scan m.clock) in
      let m'' = terminate i (record m' { queued_ids = discard i m'.queued_ids }) in
      ground (arith, get-publish_job m'' i j, get-put m i j (cancelled_scan m.clock) (λ s. refl))
