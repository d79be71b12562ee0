-- ===== src/Components/Worker.antt =====
-- ComponentManager.run, worker, start and stop.
use layerscope.Base.{
  ℕ, Bool, true, false, List, [], ◌∷◌, ◌++◌, Option, none, some, ◌==◌, leb, discard, map, select,
  if◌then◌else◌,
}
use layerscope.Base.Text.{Text, text}
use layerscope.Config.{Settings, managed_roots}
use layerscope.Models.{
  Time, queued, running, is_active, is_queued, Component, Action, check, update, MaintenanceJob,
}
use layerscope.Scanner.Jobs.{terminate_one}
use layerscope.Scanner.Task.{Flow, go, leave, raise, interrupted}
use layerscope.Components.{
  ComponentManager, get_job, put_job, job_key, publish_component, enqueue_component, fail_component,
}
use layerscope.Components.Outside.{Outside}
use layerscope.Components.Download.{Work, check_component, download}

abbrev pub action_name : Action → Text
action_name check = text "check"
action_name update = text "update"

-- The attributes that `run` writes first.
abbrev pub started_job : Time → Action → MaintenanceJob → MaintenanceJob
started_job now action j = record j {
  status = running;
  progress = 5;
  stage = text "starting";
  message = text "Starting " ++ action_name action;
  started_at = some now;
  error = none;
}

abbrev pub begin_component : ℕ → MaintenanceJob → ComponentManager → ComponentManager
begin_component i j m = publish_component i (put_job m i (started_job m.scanner.clock j.action))

module _ (c : Settings) (casefold : Text → Text) (o : Outside) (i : ℕ) where
  abbrev pub act : Action → Component → Work (Unit {0})
  act check component = check_component c o i component
  act update component = download c casefold o i component

  -- How `run` ends: an exception is stored, and a cancellation goes on.
  abbrev pub conclude : Flow (Unit {0}) → ComponentManager → ComponentManager × Bool
  conclude (go u) m = (m, false)
  conclude leave m = (m, false)
  conclude (raise e) m = (fail_component (managed_roots c) i e m, false)
  conclude interrupted m = (m, true)

  abbrev pub run_row : Option MaintenanceJob → ComponentManager → ComponentManager × Bool
  run_row none m = (m, false)
  run_row (some j) m =
      let (r, m') = act j.action j.component (begin_component i j m) in conclude r m'

  -- `run(job_id)`; `true` means that the worker was cancelled.
  unfoldable pub run_component : ComponentManager → ComponentManager × Bool
  run_component m = run_row (get_job m i) m

  -- `runnable`
  abbrev pub runnable : Option MaintenanceJob → Bool
  runnable none = false
  runnable (some j) = is_queued j.status

  -- One round of `worker`, for a job that was taken from the queue.
  unfoldable pub serve_component : ComponentManager → ComponentManager × Bool
  serve_component m =
      let m' = record m { queued_ids = discard i m.queued_ids } in
      if runnable (get_job m' i) then run_component m' else (m', false)

-- `start`: the interrupted jobs are queued again, in the order in which they were queued.
abbrev pub recovered_job : Time → MaintenanceJob → MaintenanceJob
recovered_job now j =
    if is_active j.status
    then record j {
      status = queued;
      progress = 0;
      stage = text "recovered";
      message = text "Recovered after an application restart";
      started_at = none;
      updated_at = now;
    }
    else j

abbrev pub job_before : MaintenanceJob → MaintenanceJob → Bool
job_before a b = if a.queued_at == b.queued_at then leb a.id b.id else leb a.queued_at b.queued_at

unfoldable pub insert_job : MaintenanceJob → List MaintenanceJob → List MaintenanceJob
insert_job j [] = j ∷ []
insert_job j (k ∷ t) = let rest = insert_job j t in if job_before j k then j ∷ k ∷ t else k ∷ rest

unfoldable pub jobs_by_age : List MaintenanceJob → List MaintenanceJob
unfolding insert_job
jobs_by_age [] = []
jobs_by_age (j ∷ t) = insert_job j (jobs_by_age t)

unfoldable pub enqueue_components : List ℕ → ComponentManager → ComponentManager
enqueue_components [] m = m
enqueue_components (i ∷ is) m = enqueue_components is (enqueue_component i m)

unfoldable pub start_components : ComponentManager → ComponentManager
unfolding jobs_by_age
start_components m =
    let interrupted_jobs =
      jobs_by_age (select (λ (j : MaintenanceJob). is_active j.status) m.jobs) in
    enqueue_components (map job_key interrupted_jobs)
      (record m { stopping = false; jobs = map (recovered_job m.scanner.clock) m.jobs })

-- `stop`, before the worker is cancelled.
unfoldable pub stop_components : ComponentManager → ComponentManager
stop_components m = record m { stopping = true; processes = map terminate_one m.processes }
