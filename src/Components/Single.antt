-- ===== src/Components/Single.antt =====
-- At most one job of each database waits or runs, whatever is requested and however the steps of
-- the jobs interleave.
use layerscope.Base.{
  ℕ, ◌+◌, ◌≤◌, Bool, true, false, List, [], ◌∷◌, ◌++◌, Option, none, some, ◌≡◌, ◌≢◌, refl, arith,
  ap, sym, ◌∙◌, ◌==◌, Bool-cases, inl, inr, length, select, map, add, discard, if◌then◌else◌,
}
use layerscope.Base.Table
use layerscope.Base.Text.{Text}
use layerscope.Models.{
  Time, Component, Action, MaintenanceJob, is_terminal, is_cancelled, is_queued, vulnerability_db,
  java_db,
}
use layerscope.Security.{Roots}
use layerscope.Scanner.Jobs.{Exception}
use layerscope.Components.{
  ComponentManager, job_key, get_job, put_job, written, publish_component, enqueue_component,
  terminate_component, cancel_component, cancel_row, cancelled_job, report, reported,
  complete_component, completed_job, fail_component, failed_job, active_for, newest, newer, new_job,
  request, request_row, job_gone, same_component,
}
use layerscope.Components.Worker.{
  started_job, begin_component, recovered_job, start_components, stop_components,
  enqueue_components,
}
use layerscope.Components.Rows.{jobs-publish_component, stored_error}

unfoldable pub count_active : Component → List MaintenanceJob → ℕ
count_active c jobs = length (select (active_for c) jobs)

abbrev pub IsSingle : List MaintenanceJob → Type 0
IsSingle jobs = (c : Component) → count_active c jobs ≤ 1

count-modify :
    (c : Component) (i : ℕ) (f : MaintenanceJob → MaintenanceJob) (jobs : List MaintenanceJob)
    → ((j : MaintenanceJob)
        → Table.get job_key i jobs ≡ some j
        → active_for c (f j) ≡ true
        → active_for c j ≡ true)
    → count_active c (Table.modify job_key i f jobs) ≤ count_active c jobs
unfolding count_active Table.get Table.modify
count-modify c i f [] h = omega arith
count-modify c i f (j ∷ jobs) h = elim (Bool-cases (j.id == i)) [
  | inl e ↦ elim (Bool-cases (active_for c (f j))) [
    | inl a ↦ rw (e, a, h j (rw e refl) a) (omega arith)
    | inr a ↦ rw (e, a) (ground arith)
  ]
  | inr e ↦
      let below = count-modify c i f jobs (λ k g. h k (rw e g)) in rw e (ground (arith, below))
]

count-append :
    (c : Component) (jobs : List MaintenanceJob) (j : MaintenanceJob)
    → count_active c (jobs ++ (j ∷ [])) ≤ count_active c jobs + 1
unfolding count_active
count-append c [] j = ground arith
count-append c (k ∷ jobs) j = ground (arith, count-append c jobs j)

count-append_other :
    (c : Component) (jobs : List MaintenanceJob) (j : MaintenanceJob)
    → active_for c j ≡ false
    → count_active c (jobs ++ (j ∷ [])) ≡ count_active c jobs
unfolding count_active
count-append_other c [] j h = rw h refl
count-append_other c (k ∷ jobs) j h = ground (arith, count-append_other c jobs j h)

newer-some : (j : MaintenanceJob) (o : Option MaintenanceJob) → newer j o ≢ none
newer-some j none h = ground (arith, h)
newer-some j (some k) h = ground (arith, h)

none_active :
    (c : Component) (jobs : List MaintenanceJob)
    → newest (active_for c) jobs ≡ none
    → count_active c jobs ≡ 0
unfolding newest count_active
none_active c [] h = refl
none_active c (j ∷ jobs) h = elim (Bool-cases (active_for c j)) [
  | inl e ↦ absurd (newer-some j (newest (active_for c) jobs) (rw e refl ∙ h))
  | inr e ↦ rw e (none_active c jobs (rw e refl ∙ h))
]

same_component→eq : (a b : Component) → same_component a b ≡ true → a ≡ b
same_component→eq vulnerability_db vulnerability_db h = refl
same_component→eq vulnerability_db java_db h = cc
same_component→eq java_db vulnerability_db h = cc
same_component→eq java_db java_db h = refl

module _ (m : ComponentManager) where
  -- The row written at its number keeps the count, if its activity is not new.
  put_job-Single :
      (i : ℕ) (f : MaintenanceJob → MaintenanceJob)
      → ((c : Component) (j : MaintenanceJob)
          → get_job m i ≡ some j
          → active_for c (f j) ≡ true
          → active_for c j ≡ true)
      → IsSingle m.jobs
      → IsSingle (put_job m i f).jobs
  put_job-Single i f h s c =
      omega (arith, count-modify c i (written m.scanner.clock f) m.jobs (h c), s c)

  publish_component-Single : (i : ℕ) → IsSingle m.jobs → IsSingle (publish_component i m).jobs
  publish_component-Single i s c = rw (jobs-publish_component i m) (s c)

jobs-enqueue_component : (i : ℕ) (m : ComponentManager) → (enqueue_component i m).jobs ≡ m.jobs
unfolding enqueue_component
jobs-enqueue_component i m = ground (
  arith,
  jobs-publish_component i
      (record m { queued_ids = add i m.queued_ids; queue = m.queue ++ (i ∷ []) }),
)

pub jobs-enqueue_components :
    (is : List ℕ) (m : ComponentManager) → (enqueue_components is m).jobs ≡ m.jobs
unfolding enqueue_components
jobs-enqueue_components [] m = refl
jobs-enqueue_components (i ∷ is) m =
    jobs-enqueue_components is (enqueue_component i m) ∙ jobs-enqueue_component i m

request_row-Single :
    (new_id : ℕ) (component : Component) (a : Action) (o : Option MaintenanceJob)
    (m : ComponentManager)
    → newest (active_for component) m.jobs ≡ o
    → IsSingle m.jobs
    → IsSingle (request_row new_id component a o m).0.jobs
request_row-Single new_id component a (some j) m e s = s
request_row-Single new_id component a none m e s = λ c.
    let job = new_job m.scanner.clock new_id component a in
    rw (jobs-enqueue_component new_id (record m { jobs = m.jobs ++ (job ∷ []) }))
      (elim (Bool-cases (active_for c job)) [
        | inl f ↦
            let same_c = same_component→eq component c (ground (arith, f)) in
            let zero_here =
              none_active c m.jobs
                (ap (λ (x : Component). newest (active_for x) m.jobs) (sym same_c) ∙ e) in
            omega (arith, count-append c m.jobs job, zero_here)
        | inr f ↦ omega (arith, count-append_other c m.jobs job f, s c)
      ])

cancel_row-Single :
    (i : ℕ) (o : Option MaintenanceJob) (m : ComponentManager)
    → IsSingle m.jobs
    → IsSingle (cancel_row i o m).0.jobs
unfolding terminate_component
cancel_row-Single i none m s = s
cancel_row-Single i (some j) m s = elim (Bool-cases (is_terminal j.status)) [
  | inl e ↦ rw e s
  | inr e ↦
      let m' = terminate_component i (put_job m i (cancelled_job m.scanner.clock)) in
      rw e (
        publish_component-Single (record m' { queued_ids = discard i m'.queued_ids }) i
          (put_job-Single m i (cancelled_job m.scanner.clock) (λ c k g h. ground (arith, h)) s))
]

recovered-Single :
    (now : Time) (c : Component) (jobs : List MaintenanceJob)
    → count_active c (map (recovered_job now) jobs) ≡ count_active c jobs
unfolding count_active
recovered-Single now c [] = refl
recovered-Single now c (j ∷ jobs) = ground (arith, recovered-Single now c jobs)

-- The written parts of the manager's methods, in any order. The worker begins a job that is queued.
pub data Step : ComponentManager → ComponentManager → Type 0 where
  requested :
      (new_id : ℕ) (component : Component) (a : Action) (m : ComponentManager)
      → Step m (request new_id component a m).0
  cancelled_by_user : (i : ℕ) (m : ComponentManager) → Step m (cancel_component i m).0
  begins :
      (i : ℕ) (j : MaintenanceJob) (m : ComponentManager)
      → get_job m i ≡ some j
      → is_queued j.status ≡ true
      → Step m (begin_component i j m)
  reports :
      (i n : ℕ) (stage message : Text) (m : ComponentManager)
      → Step m (report i n stage message m).0
  completes :
      (i : ℕ) (result message : Text) (m : ComponentManager)
      → Step m (complete_component i result message m)
  fails :
      (roots : Roots) (i : ℕ) (e : Exception) (m : ComponentManager)
      → Step m (fail_component roots i e m)
  restarts : (m : ComponentManager) → Step m (start_components m)
  stops : (m : ComponentManager) → Step m (stop_components m)

pub data Reach : ComponentManager → ComponentManager → Type 0 where
  here : (m : ComponentManager) → Reach m m
  next : {l m n : ComponentManager} → Reach l m → Step m n → Reach l n

abbrev row_queued : Option MaintenanceJob → Bool
row_queued none = false
row_queued (some j) = is_queued j.status

-- A write that spares a job that is gone.
unless_gone :
    (m : ComponentManager) (i : ℕ) (f : MaintenanceJob → MaintenanceJob)
    → ((c : Component) (j : MaintenanceJob)
        → active_for c (f j) ≡ true
        → is_cancelled j.status ≡ false
        → active_for c j ≡ true)
    → IsSingle m.jobs
    → IsSingle (if job_gone (get_job m i) then m else publish_component i (put_job m i f)).jobs
unless_gone m i f h s = elim (Bool-cases (job_gone (get_job m i))) [
  | inl e ↦ rw e s
  | inr e ↦ rw e (
      publish_component-Single (put_job m i f) i
        (put_job-Single m i f (λ c k g a. h c k a (ap job_gone (sym g) ∙ e)) s))
]

begins-Single :
    (i : ℕ) (j : MaintenanceJob) (m : ComponentManager)
    → get_job m i ≡ some j
    → is_queued j.status ≡ true
    → IsSingle m.jobs
    → IsSingle (begin_component i j m).jobs
begins-Single i j m g q s =
    let f = started_job m.scanner.clock j.action in
    publish_component-Single (put_job m i f) i (
      put_job-Single m i f
        (λ c k e h.
          let waiting = ap row_queued (sym e) ∙ (ap row_queued g ∙ q) in ground (arith, h, waiting))
        s)

if_report :
    (b : Bool) (m m' : ComponentManager)
    → (if◌then◌else◌ {A = ComponentManager × Bool} b (m, false) (m', true)).0.jobs
      ≡ (if b then m else m').jobs
if_report true m m' = refl
if_report false m m' = refl

Step-Single : {m n : ComponentManager} → Step m n → IsSingle m.jobs → IsSingle n.jobs
unfolding request cancel_component report complete_component fail_component stop_components
    start_components
Step-Single (requested new_id component a m) s =
    request_row-Single new_id component a (newest (active_for component) m.jobs) m refl s
Step-Single (cancelled_by_user i m) s = cancel_row-Single i (get_job m i) m s
Step-Single (begins i j m g q) s = begins-Single i j m g q s
Step-Single (reports i n stage message m) s = λ c.
    rw
      (if_report (job_gone (get_job m i)) m
        (publish_component i (put_job m i (reported n stage message))))
      (unless_gone m i (reported n stage message) (λ c k a e. a) s c)
Step-Single (completes i result message m) s =
    unless_gone m i (completed_job m.scanner.clock result message) (λ c k a e. ground (arith, a)) s
Step-Single (fails roots i e m) s =
    unless_gone m i (failed_job m.scanner.clock (stored_error i m roots e))
      (λ c k a e. ground (arith, a)) s
Step-Single (restarts m) s = λ c.
    rw (jobs-enqueue_components _ _) (omega (arith, recovered-Single m.scanner.clock c m.jobs, s c))
Step-Single (stops m) s = s

-- From a table with at most one queued or running job of each database, no sequence of requests,
-- cancellations, restarts and steps of the worker, however they interleave, makes a second one.
pub Reach-Single :
    {m n : ComponentManager}
    → Reach m n
    → ((c : Component) → count_active c m.jobs ≤ 1)
    → (c : Component) → count_active c n.jobs ≤ 1
Reach-Single (here m) s = s
Reach-Single (next r t) s = Step-Single t (Reach-Single r s)
