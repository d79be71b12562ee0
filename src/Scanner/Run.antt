-- ===== src/Scanner/Run.antt =====
-- `ScanManager.run_scan`: one scan from its claim by a worker to the release of what it holds. A
-- piece with no suspension runs at once.
pub mod Dying
pub mod Held
pub mod Ends
pub mod Cancelled
pub mod Balance
pub mod Released
pub mod Settles
use layerscope.Base.{
  ℕ, zero, suc, ◌+◌, ◌-◌, ◌/◌, Bool, true, false, not, ◌&&◌, ◌||◌, List, [], ◌∷◌, ◌++◌, Option,
  none, some, ltb, ◌==◌, max, discard, add, length, take, drop, select, is_some, if◌then◌else◌,
}
use layerscope.Base.Table
use layerscope.Base.Int.{ℤ, pos, negsuc, show}
use layerscope.Base.Json.{Json}
use layerscope.Base.Text.{Text, text, decimal, grouped, join, strip, last, or_text}
use layerscope.Config.{Settings, managed_roots}
use layerscope.Models.{
  Status, queued, running, completed, cancelled, is_queued, is_running, is_cancelled, Scan, Finding,
  Package, ImageArchive,
}
use layerscope.Security.{Roots}
use layerscope.Locks.{can_read}
use layerscope.Scanner.{ScanManager, Process, get_scan, put_scan}
use layerscope.Scanner.Events.{publish_job}
use layerscope.Scanner.Jobs.{Exception, Patch, process_key, terminate, update_job, fail_job}
use layerscope.Scanner.Command.{build_scan_command}
use layerscope.Scanner.Normalize.{normalize}
use layerscope.Scanner.Output.{Reader, consume_line}
use layerscope.Scanner.Task.{
  Flow, go, leave, raise, interrupted, Frame, Task, ◌>>=◌, ◌>>◌, pure, stop, on_manager,
}
use layerscope.Scanner.Outside.{
  Await, lock_wait, spawn_wait, exit_wait, line_wait, Exit, exits, expires, Answer, gives, throws,
  Outside, error, runtime_error, suspend, answer, raw_path, unlink_raw, image_key,
  java_coverage_warning,
}
use layerscope.Scanner.Claim.{claim, take_read_lock, progress_patch, prepare, launch}
use layerscope.Scanner.Finish.{settle}
use layerscope.Scanner.Results.{set_returncode, finish_wait, gone, check_exit, save, complete}

abbrev pub start_frame : ScanManager → Frame
start_frame m = record { manager = m; read_lock = false; workspace = false; process = false }

-- What the two `consume_output` tasks have read so far.
pub record Readers : Type 0 where
  pub stderr : Reader
  pub stdout : Reader

abbrev pub no_reader : Reader
no_reader = record { last_stage = []; tail = [] }

abbrev pub readers_at_start : Readers
readers_at_start = record { stderr = no_reader; stdout = no_reader }

module _ (casefold : Text → Text) (o : Outside) (i : ℕ) where
  -- One line of standard error, or of standard output.
  unfoldable pub read_line : Bool → Text → Readers → Task Readers
  unfolding consume_line
  read_line true line r f =
      let (reader, m) = consume_line casefold i true line r.stderr f.manager in
      (go (record r { stderr = reader }), record f { manager = m })
  read_line false line r f =
      let (reader, m) = consume_line casefold i false line r.stdout f.manager in
      (go (record r { stdout = reader }), record f { manager = m })

  -- The lines of the process in the order in which they arrive; `true` marks standard error.
  unfoldable pub read_output : ℕ → List (Bool × Text) → Readers → Task Readers
  read_output n [] r = pure r
  read_output n ((error_stream, line) ∷ rest) r = do
    suspend o (line_wait n)
    r' ← read_line error_stream line r
    read_output (suc n) rest r'

unfoldable pub rows_of :
    Outside → Option (List Package × List Finding) → Task (List Package × List Finding)
rows_of o none = stop (raise o.malformed)
rows_of o (some rows) = pure rows

module _ (c : Settings) (upper : Text → Text) (safe_url : Json → Text) (o : Outside) (i : ℕ) where
  -- The size check and `json.load`.
  unfoldable pub load_payload : ℕ → Task Json
  load_payload size =
      if ltb c.max_raw_result_bytes size
      then stop (
          raise (
            runtime_error (text "Trivy JSON exceeded the configured normalized-result size limit")))
      else answer o.payload

  unfoldable pub read_results : Task (List Package × List Finding)
  read_results = do
    on_manager (λ m.
        (update_job i
          (progress_patch 78 (text "reading_results") (text "Reading the Trivy JSON result")) m).0)
    size ← answer o.raw_size
    payload ← load_payload size
    rows_of o (normalize upper safe_url payload i)

abbrev pub prepared_message : ℕ → ℕ → Text
prepared_message findings packages =
    text "Prepared "
    ++ (grouped findings ++ (text " findings and " ++ (grouped packages ++ text " packages")))

abbrev pub report_rows : ℕ → List Package → List Finding → ScanManager → ScanManager
report_rows i packages findings m =
    (update_job i
      (progress_patch 88 (text "normalizing")
        (prepared_message (length findings) (length packages)))
      m).0

-- The rows, saved and reported, and the completed scan.
unfoldable pub store_rows : Settings → ℕ → List Package × List Finding → Task (Unit {0})
store_rows c i (packages, findings) = do
  on_manager (report_rows i packages findings)
  save i packages findings
  complete c i (length findings)

module _ (c : Settings) (casefold upper : Text → Text) (safe_url : Json → Text) (o : Outside)
    (i : ℕ) where
  -- The body of the outer `try`.
  unfoldable pub body : ℕ → Task (Unit {0})
  body worker = do
    path ← claim i worker
    on_manager (publish_job i)
    suspend o lock_wait
    take_read_lock
    on_manager (prepare o i)
    launch o i
    r ← read_output casefold o i 0 o.output readers_at_start
    suspend o exit_wait
    code ← finish_wait c o i o.exit
    check_exit i code r.stderr.tail
    rows ← read_results c upper safe_url o i
    store_rows c i rows

  -- The manager afterwards, and whether the task was cancelled.
  unfoldable pub run_scan : ℕ → ScanManager → ScanManager × Bool
  run_scan worker m = settle o (managed_roots c) i (body worker (start_frame m))
