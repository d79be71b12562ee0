-- ===== src/Scanner/Events.antt =====
-- ScanManager.publish and publish_job: live events go to bounded queues and never wait.
use layerscope.Base.{ℕ, ◌+◌, List, [], ◌∷◌, ◌++◌, Option, none, some, leb, length, if◌then◌else◌}
use layerscope.Models.{Scan}
use layerscope.Scanner.{Event, job, Subscriber, ScanManager, get_scan}

-- `queue.put_nowait(event)`, with the count of events that found their queue full.
put_nowait : Event → Subscriber → Subscriber × ℕ
put_nowait e q =
    if leb q.maxsize (length q.events)
    then (q, 1)
    else (record q { events = q.events ++ (e ∷ []) }, 0)

unfoldable pub deliver : Event → List Subscriber → List Subscriber × ℕ
unfolding put_nowait
deliver e [] = ([], 0)
deliver e (q ∷ qs) =
    let (q', full) = put_nowait e q in
    let (qs', dropped) = deliver e qs in (q' ∷ qs', full + dropped)

unfoldable pub publish : Event → ScanManager → ScanManager
publish e m =
    let (qs, dropped) = deliver e m.subscribers in
    record m { subscribers = qs; dropped_events = m.dropped_events + dropped }

-- The event that describes a scan.
abbrev pub job_event : Scan → Event
job_event s = job (record {
  scan_id = s.id;
  image_id = s.image_id;
  status = s.status;
  progress = s.progress;
  stage = s.stage;
  message = s.message;
  error = s.error;
  coverage_warning = s.coverage_warning;
})

publish_found : Option Scan → ScanManager → ScanManager
publish_found none m = m
publish_found (some s) m = publish (job_event s) m

unfoldable pub publish_job : ℕ → ScanManager → ScanManager
unfolding publish_found
publish_job i m = publish_found (get_scan m i) m
