-- ===== src/Scanner/Run/Balance.antt =====
-- The read lock through `run_scan`: it is held exactly while the frame says so.
use layerscope.Base.{
  ℕ, suc, ◌+◌, Bool, true, false, List, [], ◌∷◌, Option, none, some, ◌≡◌, arith, ltb, length,
}
use layerscope.Base.Int.{ℤ}
use layerscope.Base.Json.{Json}
use layerscope.Base.Text.{Text, strip}
use layerscope.Config.{Settings}
use layerscope.Models.{Finding, Package}
use layerscope.Security.{Roots}
use layerscope.Scanner.{ScanManager, put_scan}
use layerscope.Scanner.Events.{publish_job}
use layerscope.Scanner.Jobs.{failed_scan, Exception, Patch, patched, update_job, fail_job}
use layerscope.Scanner.Rows.{failure}
use layerscope.Scanner.Task.{Frame, Task, on_manager}
use layerscope.Scanner.Task.Ensures.{
  Ensures, Ensures-bind, Ensures-on_manager, Ensures-pure, Ensures-if, Ensures-raise,
}
use layerscope.Scanner.Outside.{
  Await, Outside, suspend, answer, Answer, gives, throws, lock_wait, spawn_wait, exit_wait,
  line_wait, Exit, exits, expires,
}
use layerscope.Scanner.Claim.{claim, take_read_lock, prepare, own_workspace, own_process, launch}
use layerscope.Scanner.Results.{
  finish_wait, check_exit, save, complete, saving_scan, completed_scan, replace_results,
}
use layerscope.Scanner.Output.{Reader, consume_line, infer_progress, hint_patch}
use layerscope.Scanner.Run.{
  Readers, read_line, read_output, read_results, body, rows_of, load_payload, store_rows,
}
use layerscope.Scanner.Events.{publish}
use layerscope.Locks.Exclusion.{one_if}

-- The pieces that leave the lock alone.
access-publish_job : (i : ℕ) (m : ScanManager) → (publish_job i m).access ≡ m.access
unfolding publish_job publish
access-publish_job i m = ground arith

access-update_job : (i : ℕ) (p : Patch) (m : ScanManager) → (update_job i p m).0.access ≡ m.access
unfolding update_job
access-update_job i p m = ground (arith, access-publish_job i (put_scan m i (patched p m.clock)))

pub access-fail_job :
    (roots : Roots) (i : ℕ) (e : Exception) (m : ScanManager)
    → (fail_job roots i e m).access ≡ m.access
unfolding fail_job
access-fail_job roots i e m =
    ground (arith, access-publish_job i (put_scan m i (failed_scan (failure roots e) m.clock)))

access-prepare : (o : Outside) (i : ℕ) (m : ScanManager) → (prepare o i m).access ≡ m.access
unfolding prepare
access-prepare o i m = access-update_job i _ _

access-consume_line :
    (casefold : Text → Text) (i : ℕ) (b : Bool) (line : Text) (r : Reader) (m : ScanManager)
    → (consume_line casefold i b line r m).1.access ≡ m.access
unfolding consume_line
access-consume_line casefold i b line r m =
    ground (arith, access-update_job i (hint_patch (infer_progress (casefold (strip line)))) m)

-- The lock is read once more than at the start exactly while `read_lock` is set.
module _ (n i : ℕ) where
  abbrev pub Balanced : Frame → Type 0
  Balanced f = f.manager.access.readers ≡ n + one_if f.read_lock

  abbrev pub Balances : {A : Type 0} → Task A → Type 0
  Balances t = Ensures Balanced (λ _. Balanced) Balanced Balanced t

  same_access :
      (f : Frame) (m : ScanManager)
      → m.access ≡ f.manager.access
      → Balanced f
      → Balanced (record f { manager = m })
  same_access f m e h = rw e h

  on_manager-Balances :
      (g : ScanManager → ScanManager)
      → ((m : ScanManager) → (g m).access ≡ m.access)
      → Balances (on_manager g)
  on_manager-Balances g e =
      Ensures-on_manager g (λ f h. same_access f (g f.manager) (e f.manager) h)

  module _ (o : Outside)
      (fair : (a : Await) (m : ScanManager)
        → (o.meanwhile a m).access.readers ≡ m.access.readers) where
    suspend-Balances : (a : Await) → Balances (suspend o a)
    unfolding suspend
    suspend-Balances a = record { at = λ f h. ground (arith, fair a f.manager) }

    answer-Balances : {A : Type 0} (x : Answer A) → Balances (answer x)
    unfolding answer
    answer-Balances (gives a) = record { at = λ f h. h }
    answer-Balances (throws e) = record { at = λ f h. h }

    -- Before the lock is taken.
    abbrev pub Fresh : Frame → Type 0
    Fresh f = (f.manager.access.readers ≡ n) × (f.read_lock ≡ false)

    claim-Fresh : (w : ℕ) → Ensures Fresh (λ _. Fresh) Balanced Balanced (claim i w)
    unfolding claim
    claim-Fresh w = record { at = λ f h. ground arith }

    publish-Fresh : Ensures Fresh (λ _. Fresh) Balanced Balanced (on_manager (publish_job i))
    publish-Fresh = Ensures-on_manager (publish_job i) (λ f h. (rw access-publish_job (h.0), h.1))

    suspend-Fresh : (a : Await) → Ensures Fresh (λ _. Fresh) Balanced Balanced (suspend o a)
    unfolding suspend
    suspend-Fresh a = record { at = λ f h. ground (arith, fair a f.manager) }

    take_read_lock-Balances : Ensures Fresh (λ _. Balanced) Balanced Balanced take_read_lock
    unfolding take_read_lock
    take_read_lock-Balances = record { at = λ f h. ground arith }

    own_workspace-Balances : Balances (own_workspace i)
    unfolding own_workspace
    own_workspace-Balances = record { at = λ f h. h }

    own_process-Balances : Balances (own_process i)
    unfolding own_process
    own_process-Balances = record { at = λ f h. h }

    launch-Balances : Balances (launch o i)
    unfolding launch
    launch-Balances = Ensures-bind (answer-Balances o.workspace) λ _.
        Ensures-bind own_workspace-Balances λ _.
          Ensures-bind (suspend-Balances spawn_wait)
            λ _. Ensures-bind (answer-Balances o.spawn) λ _. own_process-Balances

    read_line-Balances :
        (casefold : Text → Text) (b : Bool) (line : Text) (r : Readers)
        → Balances (read_line casefold o i b line r)
    unfolding read_line
    read_line-Balances casefold true line r = record {
      at = λ f h.
          same_access f (consume_line casefold i true line r.stderr f.manager).1
            (access-consume_line casefold i true line r.stderr f.manager) h;
    }
    read_line-Balances casefold false line r = record {
      at = λ f h.
          same_access f (consume_line casefold i false line r.stdout f.manager).1
            (access-consume_line casefold i false line r.stdout f.manager) h;
    }

    read_output-Balances :
        (casefold : Text → Text) (n : ℕ) (lines : List (Bool × Text)) (r : Readers)
        → Balances (read_output casefold o i n lines r)
    unfolding read_output
    read_output-Balances casefold n [] r = Ensures-pure r
    read_output-Balances casefold n ((b, line) ∷ rest) r =
        Ensures-bind (suspend-Balances (line_wait n)) λ _.
          Ensures-bind (read_line-Balances casefold b line r)
            λ r'. read_output-Balances casefold (suc n) rest r'

    finish_wait-Balances : (c : Settings) (e : Exit) → Balances (finish_wait c o i e)
    unfolding finish_wait
    finish_wait-Balances c (exits code) = record { at = λ f h. h }
    finish_wait-Balances c (expires code) = record { at = λ f h. h }

    check_exit-Balances : (code : ℤ) (tail : List Text) → Balances (check_exit i code tail)
    unfolding check_exit
    check_exit-Balances code tail = record { at = λ f h. ground arith }

    rows_of-Balances : (rows : Option (List Package × List Finding)) → Balances (rows_of o rows)
    unfolding rows_of
    rows_of-Balances none = Ensures-raise _ (λ f h. h)
    rows_of-Balances (some rows) = Ensures-pure rows

    read_results-Balances :
        (c : Settings) (upper : Text → Text) (safe_url : Json → Text)
        → Balances (read_results c upper safe_url o i)
    unfolding read_results load_payload
    read_results-Balances c upper safe_url =
        Ensures-bind (on_manager-Balances _ (λ m. access-update_job i _ m)) λ _.
          Ensures-bind (answer-Balances o.raw_size) λ size.
            Ensures-bind
              (Ensures-if (ltb c.max_raw_result_bytes size) _ _ (Ensures-raise _ (λ f h. h))
                (answer-Balances o.payload))
              λ payload. rows_of-Balances _

    save-Balances : (ps : List Package) (fs : List Finding) → Balances (save i ps fs)
    unfolding save
    save-Balances ps fs = record {
      at = λ f h. ground (
        arith,
        access-publish_job i (put_scan (replace_results i ps fs f.manager) i saving_scan),
      );
    }

    complete-Balances : (c : Settings) (found : ℕ) → Balances (complete c i found)
    unfolding complete
    complete-Balances c found = record {
      at = λ f h. ground (
        arith,
        access-publish_job i (put_scan f.manager i (completed_scan c i found f.manager.clock)),
      );
    }

    pub body-Balances :
        (c : Settings) (casefold upper : Text → Text) (safe_url : Json → Text) (w : ℕ)
        → Ensures Fresh (λ _. Balanced) Balanced Balanced (body c casefold upper safe_url o i w)
    unfolding body store_rows
    body-Balances c casefold upper safe_url w = Ensures-bind (claim-Fresh w) λ path.
        Ensures-bind publish-Fresh λ _. Ensures-bind (suspend-Fresh lock_wait) λ _.
          Ensures-bind take_read_lock-Balances λ _.
            Ensures-bind (on_manager-Balances _ (access-prepare o i)) λ _.
              Ensures-bind launch-Balances λ _.
                Ensures-bind (read_output-Balances casefold 0 o.output _) λ r.
                  Ensures-bind (suspend-Balances exit_wait) λ _.
                    Ensures-bind (finish_wait-Balances c o.exit) λ code.
                      Ensures-bind (check_exit-Balances code r.stderr.tail) λ _.
                        Ensures-bind (read_results-Balances c upper safe_url) λ rows.
                          Ensures-bind (on_manager-Balances _ (λ m. access-update_job i _ m)) λ _.
                            Ensures-bind (save-Balances rows.0 rows.1)
                              λ _. complete-Balances c (length rows.1)
