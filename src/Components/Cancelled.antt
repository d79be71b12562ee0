-- ===== src/Components/Cancelled.antt =====
-- What becomes of a maintenance job that is cancelled while its update waits for the scans.
use layerscope.Base.{ℕ, true, some, ◌≡◌, arith, Bool-cases, inl, inr}
use layerscope.Base.Text.{Text}
use layerscope.Config.{Settings, managed_roots}
use layerscope.Models.{Component, update, MaintenanceJob}
use layerscope.Scanner.Task.{Flow, go, leave, raise, interrupted}
use layerscope.Components.{
  ComponentManager, get_job, put_job, publish_component, report, terminate_component, job_gone,
}
use layerscope.Components.Outside.{Await, lock_wait, Outside}
use layerscope.Components.Download.{
  doing, ◌>>=◌, add_process, begin_write, end_wait, set_writer, take_write_lock, give_back,
  download_body, download,
}
use layerscope.Components.Worker.{conclude, started_job, run_component}
use layerscope.Components.Post.{Post, after-Post}
use layerscope.Components.Laws.{Laws, download_body-Ends}
use layerscope.Components.Rows.{get-report, get-complete_component, get-fail_component}

-- The job is cancelled, or its row is gone.
abbrev pub IsGone : ℕ → ComponentManager → Type 0
IsGone i m = job_gone (get_job m i) ≡ true

module _ (i : ℕ) (o : Outside)
    (others : (a : Await) (m : ComponentManager) → IsGone i m → IsGone i (o.meanwhile a m)) where
  staying : Laws (IsGone i) (IsGone i) (IsGone i) o i
  unfolding add_process terminate_component
  staying = record {
    others = others;
    reports = λ n stage message m h. ground (arith, h, get-report i m n stage message);
    completes = λ result message m h. ground (arith, h, get-complete_component i m result message);
    adds = λ m h. h;
    exits_with = λ code m h. h;
    terminates = λ m h. h;
    leaves = λ m h e. h;
  }

  given_back :
      (x : Flow (Unit {0}) × ComponentManager)
      → Post (IsGone i) (IsGone i) (IsGone i) x
      → Post (IsGone i) (IsGone i) (IsGone i) (x.0, give_back i x.1)
  unfolding give_back set_writer
  given_back (go a, m) h = h
  given_back (leave, m) h = h
  given_back (raise e, m) h = h
  given_back (interrupted, m) h = h

module _ (c : Settings) (casefold : Text → Text) (o : Outside) (i : ℕ)
    (others : (a : Await) (m : ComponentManager) → IsGone i m → IsGone i (o.meanwhile a m))
    (cancels : (m : ComponentManager) → IsGone i (o.meanwhile lock_wait m)) where
  take_write_lock-Gone :
      (m : ComponentManager) → Post (IsGone i) (IsGone i) (IsGone i) (take_write_lock o m)
  unfolding take_write_lock end_wait set_writer
  take_write_lock-Gone m = elim (Bool-cases (o.interrupts lock_wait)) [
    | inl e ↦ rw e (cancels (begin_write m))
    | inr e ↦ rw e (cancels (begin_write m))
  ]

  download-Gone :
      (component : Component) (m : ComponentManager)
      → Post (IsGone i) (IsGone i) (IsGone i) (download c casefold o i component m)
  unfolding download doing ◌>>=◌
  download-Gone component m =
      let m1 = (report i 12 _ _ m).0 in
      after-Post (take_write_lock o m1).0 _ (take_write_lock o m1).1 (take_write_lock-Gone m1) λ _.
        record {
          at = λ m h.
              given_back i o others (download_body c casefold o i component m)
                ((download_body-Ends (staying i o others) c casefold component).at m h);
        }

  conclude-Gone :
      (r : Flow (Unit {0})) (m : ComponentManager)
      → Post (IsGone i) (IsGone i) (IsGone i) (r, m)
      → IsGone i (conclude c casefold o i r m).0
  conclude-Gone (go a) m h = h
  conclude-Gone leave m h = h
  conclude-Gone (raise x) m h = ground (arith, h, get-fail_component i m (managed_roots c) x)
  conclude-Gone interrupted m h = h

  -- An update that is cancelled, or whose row is removed, while it waits for the scans to release the
  -- database ends that way: whatever the download then does, its job is not recorded as completed or
  -- failed, provided that the other tasks do not revive a cancelled job.
  pub cancelled_update_stays :
      (j : MaintenanceJob) (m : ComponentManager)
      → get_job m i ≡ some j
      → j.action ≡ update
      → job_gone (get_job (run_component c casefold o i m).0 i) ≡ true
  unfolding run_component
  cancelled_update_stays j m g e =
      rw (g, e)
        (conclude-Gone (download c casefold o i j.component (begun m)).0
          (download c casefold o i j.component (begun m)).1 (download-Gone j.component (begun m)))
    where
      begun : ComponentManager → ComponentManager
      begun m = publish_component i (put_job m i (started_job m.scanner.clock update))
