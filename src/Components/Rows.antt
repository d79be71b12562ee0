-- ===== src/Components/Rows.antt =====
-- What each operation on a maintenance job does to the rows and to the database lock.
use mathlib.Core.Option
use layerscope.Base.{ℕ, ◌≡◌, refl, ap, arith, ◌==◌, if◌then◌else◌}
use layerscope.Base.Table
use layerscope.Base.Text.{Text, or_text}
use layerscope.Models.{MaintenanceJob, is_cancelled}
use layerscope.Security.{Roots, sanitize_untrusted_text}
use layerscope.Scanner.Events.{publish}
use layerscope.Scanner.Jobs.{Exception}
use layerscope.Components.{
  ComponentManager, get_job, put_job, job_key, written, publish_component, report, reported,
  complete_component, completed_job, fail_component, failed_job,
}

pub jobs-publish_component : (i : ℕ) (m : ComponentManager) → (publish_component i m).jobs ≡ m.jobs
unfolding publish_component
jobs-publish_component i m = ground arith

pub access-publish_component :
    (i : ℕ) (m : ComponentManager) → (publish_component i m).scanner.access ≡ m.scanner.access
unfolding publish_component publish
access-publish_component i m = ground arith

-- A cancelled job is left alone.
abbrev pub spared : (MaintenanceJob → MaintenanceJob) → MaintenanceJob → MaintenanceJob
spared f j = if is_cancelled j.status then j else f j

module _ (m : ComponentManager) (i j : ℕ) where
  pub get-publish_component : get_job (publish_component i m) j ≡ get_job m j
  get-publish_component = ap (Table.get job_key j) (jobs-publish_component i m)

  pub get-put_job :
      (f : MaintenanceJob → MaintenanceJob)
      → ((r : MaintenanceJob) → (f r).id ≡ r.id)
      → get_job (put_job m i f) j
        ≡ (if i == j then Option.map (written m.scanner.clock f) (get_job m j) else get_job m j)
  get-put_job f h = Table.get-modify job_key i j (written m.scanner.clock f) m.jobs h

module _ (i : ℕ) (m : ComponentManager) where
  pub get-report :
      (n : ℕ) (stage message : Text)
      → get_job (report i n stage message m).0 i
        ≡ Option.map (spared (written m.scanner.clock (reported n stage message))) (get_job m i)
  unfolding report
  get-report n stage message = ground (
    arith,
    get-publish_component (put_job m i (reported n stage message)) i i,
    get-put_job m i i (reported n stage message) (λ r. refl),
  )

  pub get-complete_component :
      (result message : Text)
      → get_job (complete_component i result message m) i
        ≡ Option.map
            (spared (written m.scanner.clock (completed_job m.scanner.clock result message)))
            (get_job m i)
  unfolding complete_component
  get-complete_component result message = ground (
    arith,
    get-publish_component (put_job m i (completed_job m.scanner.clock result message)) i i,
    get-put_job m i i (completed_job m.scanner.clock result message) (λ r. refl),
  )

  -- The text that `fail` stores.
  abbrev pub stored_error : Roots → Exception → Text
  stored_error roots e = or_text (sanitize_untrusted_text roots e.message 4000) e.class_name

  pub get-fail_component :
      (roots : Roots) (e : Exception)
      → get_job (fail_component roots i e m) i
        ≡ Option.map
            (spared (written m.scanner.clock (failed_job m.scanner.clock (stored_error roots e))))
            (get_job m i)
  unfolding fail_component
  get-fail_component roots e = ground (
    arith,
    get-publish_component (put_job m i (failed_job m.scanner.clock (stored_error roots e))) i i,
    get-put_job m i i (failed_job m.scanner.clock (stored_error roots e)) (λ r. refl),
  )

  pub access-report :
      (n : ℕ) (stage message : Text)
      → (report i n stage message m).0.scanner.access ≡ m.scanner.access
  unfolding report
  access-report n stage message =
      ground (arith, access-publish_component i (put_job m i (reported n stage message)))

  pub access-complete_component :
      (result message : Text)
      → (complete_component i result message m).scanner.access ≡ m.scanner.access
  unfolding complete_component
  access-complete_component result message = ground (
    arith,
    access-publish_component i (put_job m i (completed_job m.scanner.clock result message)),
  )

  pub access-fail_component :
      (roots : Roots) (e : Exception)
      → (fail_component roots i e m).scanner.access ≡ m.scanner.access
  unfolding fail_component
  access-fail_component roots e = ground (
    arith,
    access-publish_component i (put_job m i (failed_job m.scanner.clock (stored_error roots e))),
  )
