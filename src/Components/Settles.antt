-- ===== src/Components/Settles.antt =====
-- How a maintenance job stands when `run` has ended.
use layerscope.Base.{
  ℕ, Bool, true, false, Option, none, some, ◌≡◌, refl, arith, Bool-cases, inl, inr,
}
use layerscope.Base.Text.{Text}
use layerscope.Config.{Settings, managed_roots}
use layerscope.Models.{is_terminal, Component, Action, check, update, MaintenanceJob}
use layerscope.Scanner.Task.{Flow, go, leave, raise, interrupted}
use layerscope.Components.{ComponentManager, get_job, put_job, publish_component, job_gone}
use layerscope.Components.Outside.{lock_wait, Outside}
use layerscope.Components.Download.{set_writer, take_write_lock, give_back, download_body, download}
use layerscope.Components.Worker.{act, conclude, started_job, run_row, run_component}
use layerscope.Components.Post.{Post, Ends, Ends-bind, Ends-doing}
use layerscope.Components.Laws.{Laws, check_component-Ends, download_body-Ends}
use layerscope.Components.Rows.{get-complete_component, get-fail_component}

-- The job has come to an end, or its row is gone.
abbrev pub job_settled : Option MaintenanceJob → Bool
job_settled none = true
job_settled (some j) = is_terminal j.status

abbrev pub Settled : ℕ → ComponentManager → Type 0
Settled i m = job_settled (get_job m i) ≡ true

abbrev pub Anywhere : ComponentManager → Type 0
Anywhere m = Unit {0}

gone_settled : (o : Option MaintenanceJob) → job_gone o ≡ true → job_settled o ≡ true
gone_settled none h = refl
gone_settled (some j) h = ground (arith, h)

module _ (o : Outside) (i : ℕ) where
  settling : Laws Anywhere (Settled i) (Settled i) o i
  settling = record {
    others = λ a m h. tt;
    reports = λ n stage message m h. tt;
    completes = λ result message m h. ground (arith, get-complete_component i m result message);
    adds = λ m h. tt;
    exits_with = λ code m h. tt;
    terminates = λ m h. tt;
    leaves = λ m h e. gone_settled (get_job m i) e;
  }

  given_back :
      (x : Flow (Unit {0}) × ComponentManager)
      → Post Anywhere (Settled i) (Settled i) x
      → Post Anywhere (Settled i) (Settled i) (x.0, give_back i x.1)
  unfolding give_back set_writer
  given_back (go a, m) h = h
  given_back (leave, m) h = h
  given_back (raise e, m) h = tt
  given_back (interrupted, m) h = tt

  take_write_lock-Ends : Ends Anywhere Anywhere (Settled i) (take_write_lock o)
  unfolding take_write_lock
  take_write_lock-Ends = record {
    at = λ m h. elim (Bool-cases (o.interrupts lock_wait)) [ inl e ↦ rw e tt | inr e ↦ rw e tt ];
  }

  module _ (c : Settings) (casefold : Text → Text) where
    act-Ends :
        (a : Action) (component : Component)
        → Ends Anywhere (Settled i) (Settled i) (act c casefold o i a component)
    unfolding download
    act-Ends check component = check_component-Ends settling c component
    act-Ends update component = Ends-bind (Ends-doing _ (λ m h. tt)) λ _.
        Ends-bind take_write_lock-Ends λ _. record {
          at = λ m h.
              given_back (download_body c casefold o i component m)
                ((download_body-Ends settling c casefold component).at m tt);
        }

    conclude-Settled :
        (r : Flow (Unit {0})) (m : ComponentManager)
        → Post Anywhere (Settled i) (Settled i) (r, m)
        → (conclude c casefold o i r m).1 ≡ false
        → Settled i (conclude c casefold o i r m).0
    conclude-Settled (go a) m h e = h
    conclude-Settled leave m h e = h
    conclude-Settled (raise x) m h e = ground (arith, get-fail_component i m (managed_roots c) x)
    conclude-Settled interrupted m h e = ground (arith, e)

    run_row-Settled :
        (row : Option MaintenanceJob) (m : ComponentManager)
        → get_job m i ≡ row
        → (run_row c casefold o i row m).1 ≡ false
        → Settled i (run_row c casefold o i row m).0
    run_row-Settled none m g e = rw g refl
    run_row-Settled (some j) m g e =
        let m' = publish_component i (put_job m i (started_job m.scanner.clock j.action)) in
        conclude-Settled (act c casefold o i j.action j.component m').0
          (act c casefold o i j.action j.component m').1 ((act-Ends j.action j.component).at m' tt)
          e

    -- A maintenance job that the worker runs has ended, completed, failed or cancelled, or its row is
    -- gone, however the registry and the process answer and whatever the other tasks do meanwhile,
    -- unless the worker itself was cancelled.
    pub run_component-Settled :
        (m : ComponentManager)
        → (run_component c casefold o i m).1 ≡ false
        → job_settled (get_job (run_component c casefold o i m).0 i) ≡ true
    unfolding run_component
    run_component-Settled m e = run_row-Settled (get_job m i) m refl e
