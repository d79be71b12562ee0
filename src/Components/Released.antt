-- ===== src/Components/Released.antt =====
-- What a maintenance job holds when it has ended: neither the database lock nor a process entry.
use layerscope.Base.{
  ℕ, Bool, true, false, Option, none, some, ◌≡◌, refl, arith, ◌∙◌, Bool-cases, inl, inr,
}
use layerscope.Base.Text.{Text}
use layerscope.Config.{Settings, managed_roots}
use layerscope.Models.{Action, check, update, Component, MaintenanceJob}
use layerscope.Scanner.Task.{Flow, go, leave, raise, interrupted}
use layerscope.Components.{
  ComponentManager, get_job, put_job, publish_component, report, terminate_component,
}
use layerscope.Components.Outside.{Await, lock_wait, Outside}
use layerscope.Components.Download.{
  after, finally, doing, ◌>>=◌, begin_write, end_wait, set_writer, add_process, take_write_lock,
  give_back, download_body, download,
}
use layerscope.Components.Worker.{act, conclude, started_job, run_row, run_component}
use layerscope.Components.Post.{Post}
use layerscope.Components.Laws.{Laws, check_component-Ends, download_body-Ends}
use layerscope.Components.Rows.{
  access-publish_component, access-report, access-complete_component, access-fail_component,
}

-- The lock has this writer flag and this number of waiting writers.
abbrev pub Holds : Bool → ℕ → ComponentManager → Type 0
Holds w n m = (m.scanner.access.writer ≡ w) × (m.scanner.access.waiting_writers ≡ n)

-- The other tasks leave both as they are: only this manager's worker writes.
abbrev pub SparesLock : Outside → Type 0
SparesLock o =
    (a : Await) (m : ComponentManager)
    → ((o.meanwhile a m).scanner.access.writer ≡ m.scanner.access.writer)
      × ((o.meanwhile a m).scanner.access.waiting_writers ≡ m.scanner.access.waiting_writers)

module _ (i n : ℕ) (o : Outside) (spares : SparesLock o) where
  holding : (w : Bool) → Laws (Holds w n) (Holds w n) (Holds w n) o i
  unfolding add_process terminate_component
  holding w = record {
    others = λ a m (h, k). ((spares a m).0 ∙ h, (spares a m).1 ∙ k);
    reports = λ p stage message m h. ground (arith, h, access-report i m p stage message);
    completes =
        λ result message m h. ground (arith, h, access-complete_component i m result message);
    adds = λ m h. h;
    exits_with = λ code m h. h;
    terminates = λ m h. h;
    leaves = λ m h e. h;
  }

  given_back :
      (x : Flow (Unit {0}) × ComponentManager)
      → Post (Holds true n) (Holds true n) (Holds true n) x
      → Post (Holds false n) (Holds false n) (Holds false n) (x.0, give_back i x.1)
  unfolding give_back set_writer
  given_back (go a, m) h = (refl, h.1)
  given_back (leave, m) h = (refl, h.1)
  given_back (raise e, m) h = (refl, h.1)
  given_back (interrupted, m) h = (refl, h.1)

  take_write_lock-Holds :
      (m : ComponentManager)
      → Holds false n m
      → Post (Holds false n) (Holds true n) (Holds false n) (take_write_lock o m)
  unfolding take_write_lock end_wait set_writer begin_write
  take_write_lock-Holds m (h, k) =
      let s = spares lock_wait (begin_write m) in
      elim (Bool-cases (o.interrupts lock_wait)) [
        | inl e ↦ rw e (s.0 ∙ h, omega (arith, s.1, k))
        | inr e ↦ rw e (refl, omega (arith, s.1, k))
      ]

  module _ (c : Settings) (casefold : Text → Text) where
    guarded :
        (component : Component) (x : Flow (Unit {0}) × ComponentManager)
        → Post (Holds false n) (Holds true n) (Holds false n) x
        → Post
            (Holds false n)
            (Holds false n)
            (Holds false n)
            (after x.0 (λ _. finally (give_back i) (download_body c casefold o i component)) x.1)
    guarded component (go a, m) h =
        given_back (download_body c casefold o i component m)
          ((download_body-Ends (holding true) c casefold component).at m h)
    guarded component (leave, m) h = h
    guarded component (raise e, m) h = h
    guarded component (interrupted, m) h = h

    act-Holds :
        (a : Action) (component : Component) (m : ComponentManager)
        → Holds false n m
        → Post (Holds false n) (Holds false n) (Holds false n) (act c casefold o i a component m)
    unfolding download doing ◌>>=◌
    act-Holds check component m h = (check_component-Ends (holding false) c component).at m h
    act-Holds update component m h =
        let m' = (report i 12 _ _ m).0 in
        guarded component (take_write_lock o m')
          (take_write_lock-Holds m' ((holding false).reports 12 _ _ m h))

    conclude-Holds :
        (r : Flow (Unit {0})) (m : ComponentManager)
        → Post (Holds false n) (Holds false n) (Holds false n) (r, m)
        → Holds false n (conclude c casefold o i r m).0
    conclude-Holds (go a) m h = h
    conclude-Holds leave m h = h
    conclude-Holds (raise x) m h = ground (arith, h, access-fail_component i m (managed_roots c) x)
    conclude-Holds interrupted m h = h

    run_row-Holds :
        (row : Option MaintenanceJob) (m : ComponentManager)
        → Holds false n m
        → Holds false n (run_row c casefold o i row m).0
    run_row-Holds none m h = h
    run_row-Holds (some j) m h =
        let m' = put_job m i (started_job m.scanner.clock j.action) in
        let m'' = publish_component i m' in
        conclude-Holds (act c casefold o i j.action j.component m'').0
          (act c casefold o i j.action j.component m'').1
          (act-Holds j.action j.component m'' (ground (arith, h, access-publish_component i m')))

-- However a maintenance job ends, by a result, a return, an exception, a timeout or the cancellation
-- of the worker at any suspension, the database lock has no writer afterwards and as many waiting
-- writers as before, provided that it had no writer before and that the other tasks do not write.
pub run_component_releases :
    (c : Settings) (casefold : Text → Text) (o : Outside) (i : ℕ) (m : ComponentManager)
    → SparesLock o
    → m.scanner.access.writer ≡ false
    → ((run_component c casefold o i m).0.scanner.access.writer ≡ false)
      × ((run_component c casefold o i m).0.scanner.access.waiting_writers
          ≡ m.scanner.access.waiting_writers)
unfolding run_component
run_component_releases c casefold o i m spares h =
    run_row-Holds i m.scanner.access.waiting_writers o spares c casefold (get_job m i) m (h, refl)
