-- ===== src/Components.antt =====
-- backend/app/components.py: the manager of the maintenance jobs, which check and update the
-- vulnerability databases. It shares the event loop, the live events and the database lock with the
-- manager of the scans.
pub mod Worker
pub mod Outside
pub mod Download
pub mod Post
pub mod Laws
pub mod Rows
pub mod Settles
pub mod Cancelled
pub mod Released
pub mod Recovered
pub mod Single
use layerscope.Base.{
  ℕ, Bool, true, false, not, ◌&&◌, List, [], ◌∷◌, ◌++◌, Option, none, some, ◌==◌, leb, max, member,
  add, discard, take, select, if◌then◌else◌,
}
use layerscope.Base.Table
use layerscope.Base.Text.{Text, text, same, or_text}
use layerscope.Models.{
  Time, Status, queued, completed, failed, cancelled, is_active, is_terminal, is_cancelled,
  Component, vulnerability_db, java_db, Action, check, update, MaintenanceJob,
}
use layerscope.Security.{Roots, sanitize_untrusted_text}
use layerscope.Scanner.{component_job, Process, ScanManager}
use layerscope.Scanner.Events.{publish}
use layerscope.Scanner.Jobs.{process_key, terminate_one, Exception}

-- `ComponentManager` with its table and the manager of the scans. The process of a job has the
-- job's number as its key.
pub record ComponentManager : Type 0 where
  pub scanner : ScanManager
  pub jobs : List MaintenanceJob
  pub queue : List ℕ
  pub queued_ids : List ℕ
  pub processes : List Process
  pub stopping : Bool

abbrev pub job_key : MaintenanceJob → ℕ
job_key j = j.id

abbrev pub get_job : ComponentManager → ℕ → Option MaintenanceJob
get_job m i = Table.get job_key i m.jobs

-- Attributes written at an instant; the column has `onupdate=now`.
abbrev pub written : Time → (MaintenanceJob → MaintenanceJob) → MaintenanceJob → MaintenanceJob
written now f j = record (f j) { updated_at = now }

abbrev pub put_job : ComponentManager → ℕ → (MaintenanceJob → MaintenanceJob) → ComponentManager
put_job m i f = record m { jobs = Table.modify job_key i (written m.scanner.clock f) m.jobs }

abbrev pub publish_row : Option MaintenanceJob → ComponentManager → ComponentManager
publish_row none m = m
publish_row (some j) m = record m { scanner = publish (component_job j) m.scanner }

-- `publish(job_id)`
unfoldable pub publish_component : ℕ → ComponentManager → ComponentManager
publish_component i m = publish_row (get_job m i) m

-- `enqueue(job_id)`
unfoldable pub enqueue_component : ℕ → ComponentManager → ComponentManager
enqueue_component i m =
    if member i m.queued_ids
    then m
    else publish_component i
        (record m { queued_ids = add i m.queued_ids; queue = m.queue ++ (i ∷ []) })

-- `process.terminate()` on the process of a job, if it still runs.
unfoldable pub terminate_component : ℕ → ComponentManager → ComponentManager
terminate_component i m = record m {
  processes = Table.modify process_key i terminate_one m.processes;
}

abbrev pub cancelled_job : Time → MaintenanceJob → MaintenanceJob
cancelled_job now j = record j {
  status = cancelled;
  stage = text "cancelled";
  message = text "Cancelled by a user";
  finished_at = some now;
}

abbrev pub cancel_row :
    ℕ → Option MaintenanceJob → ComponentManager → ComponentManager × Option Status
cancel_row i none m = (m, none)
cancel_row i (some j) m =
    if is_terminal j.status
    then (m, some j.status)
    else (let m' = terminate_component i (put_job m i (cancelled_job m.scanner.clock)) in
        (publish_component i (record m' { queued_ids = discard i m'.queued_ids }), some cancelled))

-- `cancel(job_id)`
unfoldable pub cancel_component : ℕ → ComponentManager → ComponentManager × Option Status
cancel_component i m = cancel_row i (get_job m i) m

abbrev pub reported : ℕ → Text → Text → MaintenanceJob → MaintenanceJob
reported progress stage message j = record j {
  progress = max j.progress progress;
  stage = stage;
  message = take 500 message;
}

-- `not job or job.status == "cancelled"`
abbrev pub job_gone : Option MaintenanceJob → Bool
job_gone none = true
job_gone (some j) = is_cancelled j.status

-- `update(job_id, progress, stage, message)`
unfoldable pub report : ℕ → ℕ → Text → Text → ComponentManager → ComponentManager × Bool
report i progress stage message m =
    if job_gone (get_job m i)
    then (m, false)
    else (publish_component i (put_job m i (reported progress stage message)), true)

abbrev pub completed_job : Time → Text → Text → MaintenanceJob → MaintenanceJob
completed_job now result message j = record j {
  status = completed;
  progress = 100;
  stage = text "completed";
  message = message;
  result_json = result;
  finished_at = some now;
}

-- `complete(job_id, result, message)`; `result` is printed already.
unfoldable pub complete_component : ℕ → Text → Text → ComponentManager → ComponentManager
complete_component i result message m =
    if job_gone (get_job m i)
    then m
    else publish_component i (put_job m i (completed_job m.scanner.clock result message))

abbrev pub failed_job : Time → Text → MaintenanceJob → MaintenanceJob
failed_job now error j = record j {
  status = failed;
  stage = text "failed";
  message = text "Component maintenance failed";
  error = some error;
  finished_at = some now;
}

-- `fail(job_id, exc)`
unfoldable pub fail_component : Roots → ℕ → Exception → ComponentManager → ComponentManager
fail_component roots i e m =
    if job_gone (get_job m i)
    then m
    else publish_component i (
        put_job m i (
          failed_job m.scanner.clock
            (or_text (sanitize_untrusted_text roots e.message 4000) e.class_name)))

abbrev pub same_component : Component → Component → Bool
same_component vulnerability_db vulnerability_db = true
same_component vulnerability_db java_db = false
same_component java_db vulnerability_db = false
same_component java_db java_db = true

-- A job of the component that is queued or running.
abbrev pub active_for : Component → MaintenanceJob → Bool
active_for c j = same_component j.component c && is_active j.status

-- The newest row, by number: `order_by(desc(MaintenanceJob.id)).limit(1)`.
abbrev pub newer : MaintenanceJob → Option MaintenanceJob → Option MaintenanceJob
newer j none = some j
newer j (some k) = if leb k.id j.id then some j else some k

unfoldable pub newest : (MaintenanceJob → Bool) → List MaintenanceJob → Option MaintenanceJob
newest p [] = none
newest p (j ∷ jobs) = let rest = newest p jobs in if p j then newer j rest else rest

abbrev pub new_job : Time → ℕ → Component → Action → MaintenanceJob
new_job now new_id component action = record {
  id = new_id;
  component = component;
  action = action;
  status = queued;
  progress = 0;
  stage = text "queued";
  message = text "Waiting for the maintenance worker";
  result_json = text "{}";
  error = none;
  queued_at = now;
  started_at = none;
  finished_at = none;
  updated_at = now;
}

abbrev pub request_row :
    ℕ
    → Component
    → Action
    → Option MaintenanceJob
    → ComponentManager
    → ComponentManager × (ℕ × Bool)
request_row new_id component action (some active) m = (m, (active.id, true))
request_row new_id component action none m = (
  enqueue_component new_id
      (record m { jobs = m.jobs ++ (new_job m.scanner.clock new_id component action ∷ []) }),
  (new_id, false),
)

-- `request`, for the two databases and the two actions; `new_id` is the number of a new row.
unfoldable pub request : ℕ → Component → Action → ComponentManager → ComponentManager × (ℕ × Bool)
request new_id component action m =
    request_row new_id component action (newest (active_for component) m.jobs) m

-- The answer to the names of a request: `ValueError` for anything but these.
unfoldable pub known_request : Text → Text → Option (Component × Action)
known_request component action =
    let known_component =
      if same component (text "vulnerability_db")
      then some vulnerability_db
      else if same component (text "java_db")
      then some java_db
      else none in
    let known_action =
      if same action (text "check")
      then some check
      else if same action (text "update")
      then some update
      else none in
    elim known_component [
      | none ↦ none
      | some c ↦ elim known_action [ none ↦ none | some a ↦ some (c, a) ]
    ]
