-- ===== src/Scanner/Outside.antt =====
-- What `ScanManager.run_scan` meets outside: the answers of the file system and of the Trivy process,
-- and what the other tasks of the event loop do while it is suspended.
use layerscope.Base.{ℕ, Bool, List, ◌++◌, discard, if◌then◌else◌}
use layerscope.Base.Int.{ℤ}
use layerscope.Base.Json.{Json}
use layerscope.Base.Text.{Text, text, decimal}
use layerscope.Config.{Settings}
use layerscope.Models.{ImageArchive}
use layerscope.Scanner.{ScanManager}
use layerscope.Scanner.Jobs.{Exception}
use layerscope.Scanner.Task.{go, raise, interrupted, Task}

-- The suspensions of `run_scan`. `exit_wait` stands for the waits of the timeout path and for the end
-- of the output readers too; `stop_wait` is the wait for the process in the cancellation handler.
-- What a suspension waits for is taken to come: the process obeys a signal.
pub data Await : Type 0 where
  lock_wait spawn_wait exit_wait stop_wait : Await
  line_wait : ℕ → Await

-- How the wait for the process ends. `expires` has the exit code after the termination.
pub data Exit : Type 0 where
  exits : ℤ → Exit
  expires : ℤ → Exit

pub data Answer (A : Type 0) : Type 0 where
  gives : A → Answer A
  throws : Exception → Answer A

pub record Outside : Type 0 where
  pub meanwhile : Await → ScanManager → ScanManager
  pub interrupts : Await → Bool
  pub java_db_available : Bool
  pub workspace : Answer (Unit {0})
  pub spawn : Answer (Unit {0})
  pub output : List (Bool × Text)
  pub exit : Exit
  pub raw_size : Answer ℕ
  pub payload : Answer Json
  -- What the interpreter raises on a payload of the wrong shape.
  pub malformed : Exception

abbrev pub error : Text → Text → Exception
error c t = record { class_name = c; message = t }

abbrev pub runtime_error : Text → Exception
runtime_error = error (text "RuntimeError")

-- An `await` that suspends: the other tasks run, and then this one may find itself cancelled.
unfoldable pub suspend : Outside → Await → Task (Unit {0})
suspend o a s =
    let s' = record s { manager = o.meanwhile a s.manager } in
    if o.interrupts a then (interrupted, s') else (go tt, s')

unfoldable pub answer : {A : Type 0} → Answer A → Task A
answer (gives a) s = (go a, s)
answer (throws e) s = (raise e, s)

-- `settings.raw_results_dir / f"scan-{scan_id}.json"`
abbrev pub raw_path : Settings → ℕ → Text
raw_path c i = c.raw_results_dir ++ (text "/scan-" ++ (decimal i ++ text ".json"))

abbrev pub unlink_raw : ℕ → ScanManager → ScanManager
unlink_raw i m = record m { raw_results = discard i m.raw_results }

abbrev pub image_key : ImageArchive → ℕ
image_key a = a.id

abbrev pub java_coverage_warning : Text
java_coverage_warning =
    text
      "Java archive vulnerabilities were skipped because the Java index database is not installed. Install Java DB from Components and rescan for full Java coverage."
