-- ===== src/Scanner/Jobs.antt =====
-- ScanManager.enqueue, cancel, update_job, fail_job and recover_jobs.
use layerscope.Base.{
  ℕ, Bool, true, false, ◌||◌, List, [], ◌∷◌, ◌++◌, Option, none, some, leb, ◌==◌, max, min, member,
  add, discard, take, if◌then◌else◌, or_else, select,
}
use layerscope.Base.Table
use layerscope.Base.Text.{Text, text, strip, last, or_text, nonempty}
use layerscope.Models.{
  Status, queued, failed, cancelled, is_terminal, is_cancelled, is_running, is_active, Scan,
}
use layerscope.Security.{Roots, sanitize_untrusted_text}
use layerscope.Scanner.{ScanManager, Process, get_scan, put_scan}
use layerscope.Scanner.Events.{publish_job}

-- `enqueue(scan_id, publish)`
unfoldable pub enqueue : ℕ → Bool → ScanManager → ScanManager × Bool
enqueue i publish m =
    if member i m.queued_ids || member i m.active_ids
    then (m, false)
    else (let m' = record m { queued_ids = add i m.queued_ids; queue = m.queue ++ (i ∷ []) } in
        (if publish then publish_job i m' else m', true))

-- `process.terminate()` on the process of a scan, if it still runs.
abbrev pub terminate_one : Process → Process
terminate_one p = elim p.returncode [ none ↦ record p { terminated = true } | some c ↦ p ]

abbrev pub process_key : Process → ℕ
process_key p = p.scan_id

unfoldable pub terminate : ℕ → ScanManager → ScanManager
terminate i m = record m { processes = Table.modify process_key i terminate_one m.processes }

-- The attributes that `cancel` writes.
abbrev pub cancelled_scan : ℕ → Scan → Scan
cancelled_scan now s = record s {
  status = cancelled;
  stage = text "cancelled";
  message = text "Cancelled by a user";
  finished_at = some now;
}

cancel_found : ℕ → Option Scan → ScanManager → ScanManager × Option Status
unfolding terminate
cancel_found i none m = (m, none)
cancel_found i (some s) m =
    if is_terminal s.status
    then (m, some s.status)
    else (let m' = put_scan m i (cancelled_scan m.clock) in
        let m'' = terminate i (record m' { queued_ids = discard i m'.queued_ids }) in
        (publish_job i m'', some cancelled))

unfoldable pub cancel : ℕ → ScanManager → ScanManager × Option Status
unfolding cancel_found
cancel i m = cancel_found i (get_scan m i) m

-- The keyword arguments of `update_job`; an empty stage counts as none given.
pub record Patch : Type 0 where
  pub status : Option Status
  pub progress : Option ℕ
  pub stage : Text
  pub message : Option Text
  pub error : Option Text

-- The new message and the new error, if one is given.
abbrev pub new_message : Option Text → Text → Text
new_message none old = old
new_message (some t) old = take 500 (strip t)

abbrev pub new_error : Option Text → Option Text → Option Text
new_error none old = old
new_error (some t) old = some (take 4000 t)

abbrev pub patched : Patch → ℕ → Scan → Scan
patched p now s = record s {
  status = or_else p.status s.status;
  progress = elim p.progress [ none ↦ s.progress | some n ↦ max s.progress (min 100 n) ];
  stage = if nonempty p.stage then take 40 p.stage else s.stage;
  message = new_message p.message s.message;
  error = new_error p.error s.error;
  updated_at = now;
}

update_found : ℕ → Patch → Option Scan → ScanManager → ScanManager × Bool
update_found i p none m = (m, false)
update_found i p (some s) m =
    if is_cancelled s.status
    then (m, false)
    else (publish_job i (put_scan m i (patched p m.clock)), true)

unfoldable pub update_job : ℕ → Patch → ScanManager → ScanManager × Bool
unfolding update_found
update_job i p m = update_found i p (get_scan m i) m

-- An exception: its class and its text.
pub record Exception : Type 0 where
  pub class_name : Text
  pub message : Text

abbrev pub failed_scan : Text → ℕ → Scan → Scan
failed_scan message now s = record s {
  status = failed;
  stage = text "failed";
  message = text "Scan failed";
  finished_at = some now;
  updated_at = now;
  error = some (last 4000 message);
}

fail_found : ℕ → Text → Option Scan → ScanManager → ScanManager
fail_found i message none m = m
fail_found i message (some s) m =
    if is_cancelled s.status then m else publish_job i (put_scan m i (failed_scan message m.clock))

unfoldable pub fail_job : Roots → ℕ → Exception → ScanManager → ScanManager
unfolding fail_found
fail_job roots i e m =
    fail_found i (or_text (sanitize_untrusted_text roots e.message 4000) e.class_name)
      (get_scan m i) m

-- recover_jobs: the interrupted scans are queued again, in the order in which they were queued.
abbrev pub recovered_scan : Scan → Scan
recovered_scan s =
    if is_running s.status
    then (record s {
      status = queued;
      started_at = none;
      progress = 0;
      stage = text "recovered";
      message = text "Recovered after an application restart";
    })
    else s

abbrev pub recover_rows : List Scan → List Scan
recover_rows [] = []
recover_rows (s ∷ t) = recovered_scan s ∷ recover_rows t

-- `order_by(Scan.queued_at, Scan.id)`
abbrev pub queued_before : Scan → Scan → Bool
queued_before a b =
    if a.queued_at == b.queued_at then leb a.id b.id else leb a.queued_at b.queued_at

insert_scan : Scan → List Scan → List Scan
insert_scan s [] = s ∷ []
insert_scan s (r ∷ t) = if queued_before s r then s ∷ r ∷ t else r ∷ insert_scan s t

unfoldable pub by_queued_at : List Scan → List Scan
unfolding insert_scan
by_queued_at [] = []
by_queued_at (s ∷ t) = insert_scan s (by_queued_at t)

abbrev pub ids : List Scan → List ℕ
ids [] = []
ids (s ∷ t) = s.id ∷ ids t

unfoldable pub enqueue_all : List ℕ → ScanManager → ScanManager
unfolding enqueue
enqueue_all [] m = m
enqueue_all (i ∷ is) m = enqueue_all is (publish_job i (enqueue i false m).0)

unfoldable pub recover_jobs : ScanManager → ScanManager
unfolding by_queued_at enqueue_all
recover_jobs m =
    let jobs = by_queued_at (select (λ (s : Scan). is_active s.status) m.scans) in
    enqueue_all (ids jobs) (record m { scans = recover_rows m.scans })
