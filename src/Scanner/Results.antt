-- ===== src/Scanner/Results.antt =====
-- `ScanManager.run_scan`, from the end of the Trivy process to the completed scan.
use layerscope.Base.{
  ℕ, zero, suc, ◌+◌, ◌-◌, ◌/◌, Bool, true, false, not, List, [], ◌∷◌, ◌++◌, Option, none, some,
  ◌==◌, length, take, drop, select, if◌then◌else◌,
}
use layerscope.Base.Table
use layerscope.Base.Int.{ℤ, pos, negsuc, show}
use layerscope.Base.Text.{Text, text, decimal, grouped, join, strip, last, or_text}
use layerscope.Config.{Settings}
use layerscope.Models.{completed, is_cancelled, Scan, Finding, Package}
use layerscope.Scanner.{ScanManager, get_scan, put_scan}
use layerscope.Scanner.Events.{publish_job}
use layerscope.Scanner.Jobs.{process_key, terminate}
use layerscope.Scanner.Task.{go, leave, raise, Task}
use layerscope.Scanner.Outside.{Exit, exits, expires, Outside, runtime_error, raw_path, unlink_raw}

abbrev pub set_returncode : ℕ → ℤ → ScanManager → ScanManager
set_returncode i code m = record m {
  processes = Table.modify process_key i (λ p. record p { returncode = some code }) m.processes;
}

-- The process waits, and its code when it has ended: `exits`, or the timeout of the scan.
unfoldable pub finish_wait : Settings → Outside → ℕ → Exit → Task ℤ
unfolding terminate
finish_wait c o i (exits code) f = (go code, record f { manager = set_returncode i code f.manager })
finish_wait c o i (expires code) f = (
  raise (
      runtime_error (
        text "Trivy exceeded the " ++ (decimal c.trivy_timeout_seconds ++ text "-second timeout"))),
  record f { manager = set_returncode i code (terminate i f.manager) },
)

unfoldable pub is_zero : ℤ → Bool
is_zero (pos n) = n == 0
is_zero (negsuc n) = false

-- `not current or current.status == "cancelled"`
abbrev pub gone : Option Scan → Bool
gone none = true
gone (some s) = is_cancelled s.status

-- After the process: a cancelled scan ends here, and so does a process that failed.
unfoldable pub check_exit : ℕ → ℤ → List Text → Task (Unit {0})
unfolding is_zero
check_exit i code tail f =
    if gone (get_scan f.manager i)
    then (leave, record f { manager = unlink_raw i f.manager })
    else if is_zero code
    then (go tt, f)
    else (
      raise (
          runtime_error (
            last 4000 (
              or_text (strip (join (text "\n") tail))
                (text "Trivy exited with code " ++ show code)))),
      f,
    )

-- `bulk_insert_models`: batches of `size` rows.
unfoldable pub bulk_insert : {A : Type 0} → ℕ → ℕ → List A → List A → List A
bulk_insert zero size rows items = rows
bulk_insert (suc rounds) size rows items =
    bulk_insert rounds size (rows ++ take size items) (drop size items)

abbrev pub normalized_insert_batch : ℕ
normalized_insert_batch = 5000

-- The number of batches is that of `range(0, len(items), size)`.
abbrev pub insert_models : {A : Type 0} → List A → List A → List A
insert_models rows items =
    bulk_insert ((length items + (normalized_insert_batch - 1)) / normalized_insert_batch)
      normalized_insert_batch rows items

unfoldable pub replace_results : ℕ → List Package → List Finding → ScanManager → ScanManager
replace_results i packages findings m = record m {
  findings = insert_models (select (λ (r : Finding). not (r.scan_id == i)) m.findings) findings;
  packages = insert_models (select (λ (r : Package). not (r.scan_id == i)) m.packages) packages;
}

abbrev pub saving_scan : Scan → Scan
saving_scan s = record s {
  progress = 96;
  stage = text "saving";
  message = text "Saving normalized results";
}

unfoldable pub save : ℕ → List Package → List Finding → Task (Unit {0})
unfolding replace_results
save i packages findings f = elim (get_scan f.manager i) [
  | none ↦ (leave, record f { manager = unlink_raw i f.manager })
  | some s ↦
      if is_cancelled s.status then (leave, record f { manager = unlink_raw i f.manager }) else (
        go tt,
        record f {
          manager =
              publish_job i
                (put_scan (replace_results i packages findings f.manager) i saving_scan);
        },
      )
]

abbrev pub warned : Option Text → Bool
warned none = false
warned (some []) = false
warned (some (c ∷ t)) = true

abbrev pub completed_scan : Settings → ℕ → ℕ → ℕ → Scan → Scan
completed_scan c i found now s = record s {
  status = completed;
  progress = 100;
  stage = text "completed";
  message =
      (text "Completed with " ++ (grouped found ++ text " findings"))
      ++ (if warned s.coverage_warning
          then text ". Java archives were skipped; install Java DB and rescan for full coverage"
          else []);
  finished_at = some now;
  updated_at = now;
  raw_json_path = some (raw_path c i);
}

unfoldable pub complete : Settings → ℕ → ℕ → Task (Unit {0})
complete c i found f = elim (get_scan f.manager i) [
  | none ↦ (leave, f)
  | some s ↦ if is_cancelled s.status then (leave, f) else (
    go tt,
    record f {
      manager = publish_job i (put_scan f.manager i (completed_scan c i found f.manager.clock));
    },
  )
]
