-- ===== src/Components/Recovered.antt =====
-- What a restart does with the jobs that it interrupts.
use mathlib.Core.List.{map}
use layerscope.Base.{
  ℕ, Bool, true, false, not, ◌&&◌, ◌||◌, List, [], ◌∷◌, ◌++◌, ◌≡◌, refl, ap, ◌∙◌, arith, ◌==◌,
  ==_iff, Bool-cases, inl, inr, any, select, member, add, member-add,
}
use layerscope.Models.{Time, MaintenanceJob, is_active, is_queued}
use layerscope.Components.{ComponentManager, job_key, publish_component, enqueue_component}
use layerscope.Components.Single.{jobs-enqueue_components}
use layerscope.Components.Worker.{
  recovered_job, insert_job, jobs_by_age, enqueue_components, start_components,
}

-- What is marked as queued is in the queue.
abbrev pub IsQueuedWell : ComponentManager → Type 0
IsQueuedWell m = (i : ℕ) → member i m.queued_ids ≡ true → member i m.queue ≡ true

member-snoc : (i j : ℕ) (is : List ℕ) → member i (is ++ (j ∷ [])) ≡ (member i is || i == j)
member-snoc i j [] = ground arith
member-snoc i j (k ∷ is) = ground (arith, member-snoc i j is)

queue-publish : (i : ℕ) (m : ComponentManager) → (publish_component i m).queue ≡ m.queue
unfolding publish_component
queue-publish i m = ground arith

queued_ids-publish :
    (i : ℕ) (m : ComponentManager) → (publish_component i m).queued_ids ≡ m.queued_ids
unfolding publish_component
queued_ids-publish i m = ground arith

-- One job more in the queue, once.
enqueue_one :
    (i : ℕ) (m : ComponentManager)
    → IsQueuedWell m
    → IsQueuedWell (enqueue_component i m)
      × (member i (enqueue_component i m).queue ≡ true)
      × ((j : ℕ) → member j m.queue ≡ true → member j (enqueue_component i m).queue ≡ true)
unfolding enqueue_component
enqueue_one i m h = elim (Bool-cases (member i m.queued_ids)) [
  | inl e ↦ rw e (h, h i e, λ j k. k)
  | inr e ↦
      let m' = record m { queued_ids = add i m.queued_ids; queue = m.queue ++ (i ∷ []) } in
      rw (e, queue-publish i m', queued_ids-publish i m')
        (
          λ j k. ground (arith, member-snoc j i m.queue, member-add i j m.queued_ids, k, h j),
          ground (arith, member-snoc i i m.queue),
          λ j k. ground (arith, member-snoc j i m.queue, k),
        )
]

enqueue_all :
    (is : List ℕ) (m : ComponentManager)
    → IsQueuedWell m
    → ((j : ℕ) → member j m.queue ≡ true → member j (enqueue_components is m).queue ≡ true)
      × ((j : ℕ) → member j is ≡ true → member j (enqueue_components is m).queue ≡ true)
unfolding enqueue_components
enqueue_all [] m h = (λ j k. k, λ j k. ground (arith, k))
enqueue_all (i ∷ is) m h =
    let (well, here, kept) = enqueue_one i m h in
    let (older, newer) = enqueue_all is (enqueue_component i m) well in
    (
      λ j k. older j (kept j k),
      λ j k. elim (Bool-cases (j == i)) [
        | inl e ↦
            older j (ap (λ n. member n (enqueue_component i m).queue) ((==_iff j i).0 e) ∙ here)
        | inr e ↦ newer j (ground (arith, e, k))
      ],
    )

-- The numbers of jobs.
abbrev numbers : List MaintenanceJob → List ℕ
numbers jobs = map job_key jobs

member-insert_job :
    (i : ℕ) (j : MaintenanceJob) (jobs : List MaintenanceJob)
    → member i (numbers (insert_job j jobs)) ≡ (i == j.id || member i (numbers jobs))
unfolding insert_job
member-insert_job i j [] = refl
member-insert_job i j (k ∷ jobs) = ground (arith, member-insert_job i j jobs)

member-jobs_by_age :
    (i : ℕ) (jobs : List MaintenanceJob)
    → member i (numbers (jobs_by_age jobs)) ≡ member i (numbers jobs)
unfolding jobs_by_age
member-jobs_by_age i [] = refl
member-jobs_by_age i (j ∷ jobs) =
    ground (arith, member-insert_job i j (jobs_by_age jobs), member-jobs_by_age i jobs)

abbrev pub was_active : ℕ → List MaintenanceJob → Bool
was_active i jobs = any (λ (j : MaintenanceJob). i == j.id && is_active j.status) jobs

abbrev pub left_running : List MaintenanceJob → Bool
left_running jobs =
    any (λ (j : MaintenanceJob). is_active j.status && not (is_queued j.status)) jobs

member-active :
    (i : ℕ) (jobs : List MaintenanceJob)
    → member i (numbers (select (λ (j : MaintenanceJob). is_active j.status) jobs))
      ≡ was_active i jobs
member-active i [] = refl
member-active i (j ∷ jobs) = ground (arith, member-active i jobs)

none_running :
    (now : Time) (jobs : List MaintenanceJob) → left_running (map (recovered_job now) jobs) ≡ false
none_running now [] = refl
none_running now (j ∷ jobs) = ground (arith, none_running now jobs)

-- A restart puts every job that was queued or running into the queue, and leaves no job marked as
-- running, provided that the queue holds what is marked as queued, as it does with a new event loop.
pub start_components-Recovers :
    (m : ComponentManager)
    → IsQueuedWell m
    → (left_running (start_components m).jobs ≡ false)
      × ((i : ℕ) → was_active i m.jobs ≡ true → member i (start_components m).queue ≡ true)
unfolding start_components
start_components-Recovers m h =
    let active = select (λ (j : MaintenanceJob). is_active j.status) m.jobs in
    let m' = record m { stopping = false; jobs = map (recovered_job m.scanner.clock) m.jobs } in
    let ids = numbers (jobs_by_age active) in
    (
      ap left_running (jobs-enqueue_components ids m') ∙ none_running m.scanner.clock m.jobs,
      λ i k.
          (enqueue_all ids m' h).1 i (member-jobs_by_age i active ∙ (member-active i m.jobs ∙ k)),
    )
