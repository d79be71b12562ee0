-- ===== src/Tests/Maintenance.antt =====
-- Runs of maintenance jobs.
use layerscope.Base.{ℕ, ◌≤◌, ◌≡◌, refl, true, false, [], ◌∷◌, none, some, arith, member}
use layerscope.Base.Int.{pos}
use layerscope.Base.Table
use layerscope.Base.Json.{truthy, find, get_key}
use layerscope.Base.Text.{text}
use layerscope.Models.{Component, java_db, vulnerability_db, update, check}
use layerscope.Scanner.Outside.{gives, exits}
use layerscope.Components.{
  ComponentManager, get_job, job_gone, request, put_job, cancelled_job, report,
}
use layerscope.Components.Outside.{
  Await, lock_wait, Outside, absent, host_of, registry_reachable, database_info, parse_time,
  overdue,
}
use layerscope.Components.Download.{check_component, doing, ◌>>=◌, answer_job, suspend_job}
use layerscope.Components.Worker.{run_component}
use layerscope.Components.Rows.{get-put_job}
use layerscope.Locks.{init}
use layerscope.Components.Worker.{start_components}
use layerscope.Components.Recovered.{start_components-Recovers, left_running, was_active}
use layerscope.Components.Settles.{job_settled, run_component-Settled}
use layerscope.Components.Cancelled.{cancelled_update_stays}
use layerscope.Components.Released.{run_component_releases}
use layerscope.Components.Single.{Reach-Single, here, next, requested, count_active}
use layerscope.Tests.Samples.{same_text, sample_settings, sample_manager, sample_job}

abbrev sample_components : ComponentManager
sample_components = record {
  scanner = sample_manager false;
  jobs = record sample_job { action = update } ∷ [];
  queue = 1 ∷ [];
  queued_ids = 1 ∷ [];
  processes = [];
  stopping = false;
}

abbrev sample_world : (Await → ComponentManager → ComponentManager) → Outside
sample_world meanwhile = record {
  meanwhile = meanwhile;
  interrupts = λ a. false;
  registry = λ host. gives (some 401);
  workspace = gives tt;
  spawn = gives tt;
  output = text "downloading" ∷ [];
  exit = exits (pos 0);
  metadata = λ c. absent;
  size_bytes = λ c. 9;
  str = λ j. [];
  show_moment = λ t. [];
  fromisoformat = λ t. none;
}

abbrev resting : Await → ComponentManager → ComponentManager
resting a m = m

abbrev checking : ComponentManager
checking = record sample_components { jobs = sample_job ∷ [] }

run_finishes : (run_component sample_settings same_text (sample_world resting) 1 checking).1 ≡ false
unfolding run_component registry_reachable host_of Table.get check_component database_info
    parse_time truthy find get_key overdue doing ◌>>=◌ answer_job suspend_job report
run_finishes = refl

run_component-Settled_example :
    job_settled
      (get_job (run_component sample_settings same_text (sample_world resting) 1 checking).0 1)
    ≡ true
run_component-Settled_example =
    run_component-Settled (sample_world resting) 1 sample_settings same_text checking run_finishes

-- Another task cancels the job at every suspension.
abbrev cancels : Await → ComponentManager → ComponentManager
cancels a m = put_job m 1 (cancelled_job 7)

cancels_gone : (m : ComponentManager) → job_gone (get_job (cancels lock_wait m) 1) ≡ true
cancels_gone m = ground (arith, get-put_job m 1 1 (cancelled_job 7) (λ r. refl))

cancelled_update_stays_example :
    job_gone (
      get_job
        (run_component sample_settings same_text (sample_world cancels) 1 sample_components).0
        1)
    ≡ true
unfolding Table.get
cancelled_update_stays_example =
    cancelled_update_stays sample_settings same_text (sample_world cancels) 1
      (λ a m h. cancels_gone m) cancels_gone (record sample_job { action = update })
      sample_components refl refl

run_component_releases_example :
    ((run_component sample_settings same_text
        (sample_world resting)
        1
        sample_components).0.scanner.access.writer
      ≡ false)
    × ((run_component sample_settings same_text
          (sample_world resting)
          1
          sample_components).0.scanner.access.waiting_writers
        ≡ 0)
unfolding init
run_component_releases_example =
    run_component_releases sample_settings same_text (sample_world resting) 1 sample_components
      (λ a m. (refl, refl)) refl

-- Two requests for the same database, of which the second finds the first.
abbrev twice : ComponentManager
twice = (request 3 java_db update (request 2 java_db check sample_components).0).0

one_each : (c : Component) → count_active c sample_components.jobs ≤ 1
unfolding count_active
one_each vulnerability_db = ground arith
one_each java_db = ground arith

Reach-Single_example : count_active java_db twice.jobs ≤ 1
Reach-Single_example =
    Reach-Single
      (next (next (here sample_components) (requested 2 java_db check sample_components))
        (requested 3 java_db update (request 2 java_db check sample_components).0))
      one_each java_db

host_test : host_of (text "ghcr.io/aquasecurity/trivy-db:2") ≡ text "ghcr.io"
unfolding host_of text
host_test = refl

start_components-Recovers_example :
    (left_running (start_components sample_components).jobs ≡ false)
    × ((i : ℕ)
        → was_active i sample_components.jobs ≡ true
        → member i (start_components sample_components).queue ≡ true)
start_components-Recovers_example = start_components-Recovers sample_components (λ i h. h)
