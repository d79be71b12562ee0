-- ===== src/Scanner/Finish.antt =====
-- The handlers and the `finally` of `ScanManager.run_scan`.
use layerscope.Base.{
  ℕ, ◌-◌, Bool, true, false, not, Option, none, some, ◌==◌, discard, select, ◌&&◌, any, is_some,
  if◌then◌else◌,
}
use layerscope.Base.Text.{text}
use layerscope.Models.{queued, is_running, Scan}
use layerscope.Security.{Roots}
use layerscope.Scanner.{ScanManager, Process, get_scan, put_scan}
use layerscope.Scanner.Jobs.{Exception, terminate, fail_job}
use layerscope.Scanner.Task.{Flow, go, leave, raise, interrupted, Frame}
use layerscope.Scanner.Outside.{unlink_raw, Outside, stop_wait}

abbrev pub paused_scan : Scan → Scan
paused_scan s = record s {
  status = queued;
  progress = 0;
  stage = text "recovered";
  message = text "Paused during shutdown; it will resume after restart";
  started_at = none;
}

unfoldable pub pause_found : ℕ → Option Scan → ScanManager → ScanManager
pause_found i none m = m
pause_found i (some s) m = if is_running s.status then put_scan m i paused_scan else m

-- The process of a scan has not ended.
abbrev pub runs : ℕ → ScanManager → Bool
runs i m = any (λ (p : Process). p.scan_id == i && not (is_some p.returncode)) m.processes

unfoldable pub pause : ℕ → ScanManager → ScanManager
unfolding pause_found
pause i m = if m.stopping then pause_found i (get_scan m i) m else m

-- `except asyncio.CancelledError`: while it waits for the process, other tasks run, and a second
-- cancellation ends it before the scan is queued again.
unfoldable pub on_interrupt : Outside → ℕ → Frame → ScanManager
unfolding terminate
on_interrupt o i f =
    if f.process && runs i f.manager
    then (let m = o.meanwhile stop_wait (terminate i f.manager) in
        if o.interrupts stop_wait then m else pause i m)
    else pause i f.manager

-- `except Exception`
unfoldable pub on_error : Roots → ℕ → Exception → Frame → ScanManager
on_error roots i e f = fail_job roots i e (unlink_raw i f.manager)

-- `finally`
unfoldable pub release : ℕ → Frame → ScanManager → ScanManager
release i f m =
    let m' = record m {
      processes = select (λ (p : Process). not (p.scan_id == i)) m.processes;
      workspaces = if f.workspace then discard i m.workspaces else m.workspaces;
    } in
    if f.read_lock
    then (record m' { access = record (m'.access) { readers = m'.access.readers - 1 } })
    else m'

unfoldable pub settle : Outside → Roots → ℕ → Flow (Unit {0}) × Frame → ScanManager × Bool
unfolding on_interrupt on_error release
settle o roots i (go u, f) = (release i f f.manager, false)
settle o roots i (leave, f) = (release i f f.manager, false)
settle o roots i (raise e, f) = (release i f (on_error roots i e f), false)
settle o roots i (interrupted, f) = (release i f (on_interrupt o i f), true)
