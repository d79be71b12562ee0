-- ===== src/Scanner/Claim.antt =====
-- `ScanManager.run_scan`, up to the start of the Trivy process.
use layerscope.Base.{ℕ, ◌+◌, true, false, ◌∷◌, ◌++◌, Option, none, some, max, add, if◌then◌else◌}
use layerscope.Base.Table
use layerscope.Base.Text.{Text, text, decimal}
use layerscope.Models.{running, is_queued, Scan}
use layerscope.Scanner.{ScanManager, get_scan, put_scan}
use layerscope.Scanner.Jobs.{Patch, update_job}
use layerscope.Scanner.Task.{go, leave, raise, Task, ◌>>◌}
use layerscope.Scanner.Outside.{
  spawn_wait, Outside, error, suspend, answer, image_key, java_coverage_warning,
}

-- The claim: a queued scan becomes a running one.
abbrev pub claimed_scan : ℕ → ℕ → Scan → Scan
claimed_scan worker now s = record s {
  status = running;
  progress = max s.progress 3;
  stage = text "preparing";
  message = text "Worker " ++ (decimal (worker + 1) ++ text " is validating the archive");
  started_at = some now;
  finished_at = none;
  error = none;
  coverage_warning = none;
}

claim_found : ℕ → ℕ → Option Scan → Task Text
claim_found i worker none f = (leave, f)
claim_found i worker (some s) f =
    if is_queued s.status
    then elim (Table.get image_key s.image_id f.manager.images) [
      | none ↦ (
        raise (error (text "AttributeError") (text "'NoneType' object has no attribute 'path'")),
        f,
      )
      | some a ↦ (
        go a.path,
        record f { manager = put_scan f.manager i (claimed_scan worker f.manager.clock) },
      )
    ]
    else (leave, f)

unfoldable pub claim : ℕ → ℕ → Task Text
unfolding claim_found
claim i worker f = claim_found i worker (get_scan f.manager i) f

-- `acquire_read` returns when the lock can be read; what wakes it is the matter of Locks.
unfoldable pub take_read_lock : Task (Unit {0})
take_read_lock f =
    let m = f.manager in
    (
      go tt,
      record f {
        manager = record m { access = record (m.access) { readers = m.access.readers + 1 } };
        read_lock = true;
      },
    )

abbrev pub progress_patch : ℕ → Text → Text → Patch
progress_patch progress stage message = record {
  status = none;
  progress = some progress;
  stage = stage;
  message = some message;
  error = none;
}

-- The coverage warning and the first progress report, after the lock is taken.
unfoldable pub prepare : Outside → ℕ → ScanManager → ScanManager
prepare o i m =
    let m' = put_scan m i (λ s. record s {
      coverage_warning = if o.java_db_available then none else some java_coverage_warning;
    }) in
    (update_job i
      (progress_patch 8 (text "initializing") (
        if o.java_db_available
        then text "Starting Trivy"
        else text "Starting Trivy without Java archive coverage"))
      m').0

abbrev pub register : ℕ → ScanManager → ScanManager
register i m = record m {
  processes = record { scan_id = i; returncode = none; terminated = false } ∷ m.processes;
}

-- The workspace of the scan, once it is created.
unfoldable pub own_workspace : ℕ → Task (Unit {0})
own_workspace i f = (
  go tt,
  record f {
    workspace = true;
    manager = record (f.manager) { workspaces = add i f.manager.workspaces };
  },
)

-- The entry of the process in `self.processes`.
unfoldable pub own_process : ℕ → Task (Unit {0})
own_process i f = (go tt, record f { process = true; manager = register i f.manager })

-- The workspace, and the process with its entry.
unfoldable pub launch : Outside → ℕ → Task (Unit {0})
launch o i = do
  answer o.workspace
  own_workspace i
  suspend o spawn_wait
  answer o.spawn
  own_process i
