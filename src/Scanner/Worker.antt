-- ===== src/Scanner/Worker.antt =====
-- `ScanManager.worker`, `start` and `stop`: the tasks that take scans from the queue.
use layerscope.Base.{
  ℕ, Bool, true, false, List, [], ◌∷◌, Option, none, some, add, discard, map, if◌then◌else◌,
}
use layerscope.Base.Json.{Json}
use layerscope.Base.Text.{Text}
use layerscope.Config.{Settings}
use layerscope.Models.{is_queued, Scan}
use layerscope.Scanner.{ScanManager, get_scan}
use layerscope.Scanner.Jobs.{terminate_one, recover_jobs}
use layerscope.Scanner.Outside.{Outside}
use layerscope.Scanner.Run.{run_scan}

-- `await self.queue.get()` and the bookkeeping after it; `none` while the queue is empty.
take_from : List ℕ → ScanManager → Option (ℕ × ScanManager)
take_from [] m = none
take_from (i ∷ rest) m = some (
  i,
  record m { queue = rest; queued_ids = discard i m.queued_ids; active_ids = add i m.active_ids },
)

unfoldable pub take_job : ScanManager → Option (ℕ × ScanManager)
unfolding take_from
take_job m = take_from m.queue m

-- `should_run`
abbrev pub should_run : Option Scan → Bool
should_run none = false
should_run (some s) = is_queued s.status

-- The `finally` of one round.
unfoldable pub finish_job : ℕ → ScanManager → ScanManager
finish_job i m = record m { active_ids = discard i m.active_ids }

module _ (c : Settings) (casefold upper : Text → Text) (safe_url : Json → Text) (o : Outside) where
  -- One round of the loop for a job that was taken; `true` means that the worker was cancelled.
  -- `run_scan` handles its own exceptions, so the `except Exception` of the loop has no work.
  unfoldable pub serve : ℕ → ℕ → ScanManager → ScanManager × Bool
  unfolding finish_job
  serve worker i m =
      let (m', cancelled_here) = run_scan c casefold upper safe_url o i worker m in
      if should_run (get_scan m i)
      then (finish_job i m', cancelled_here)
      else (finish_job i m, false)

-- `start`, without the directories: a restart keeps no state of the old event loop.
unfoldable pub start : ScanManager → ScanManager
start m = recover_jobs (record m {
  queue = [];
  queued_ids = [];
  active_ids = [];
  subscribers = [];
  workspaces = [];
  stopping = false;
})

-- The part of `stop` before the workers are cancelled.
unfoldable pub begin_stop : ScanManager → ScanManager
begin_stop m = record m { stopping = true; processes = map terminate_one m.processes }
