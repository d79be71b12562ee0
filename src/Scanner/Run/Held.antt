-- ===== src/Scanner/Run/Held.antt =====
-- How a scan's row stands at each point of `run_scan`: the pieces keep it running, cancelled or
-- removed until the end.
use layerscope.Base.{
  ℕ, suc, Bool, true, false, ◌||◌, List, [], ◌∷◌, Option, none, some, ◌≡◌, refl, arith, ==_refl,
  ◌⊎◌, inl, inr, Option-cases, Bool-cases,
}
use layerscope.Base.Int.{ℤ}
use layerscope.Base.Json.{Json}
use layerscope.Base.Text.{Text, strip}
use layerscope.Config.{Settings}
use layerscope.Models.{
  Scan, Finding, Package, Status, cancelled, is_cancelled, is_running, is_queued, is_terminal,
}
use layerscope.Scanner.{ScanManager, get_scan, put_scan}
use layerscope.Scanner.Events.{publish_job}
use layerscope.Scanner.Jobs.{Patch, update_job, cancel}
use layerscope.Scanner.Rows.{get-put, get-publish_job, get-update_job, get-cancel}
use layerscope.Scanner.Task.{Frame}
use layerscope.Scanner.Task.Ensures.{
  Ensures, Ensures-bind, Ensures-on_manager, Ensures-pure, Ensures-if, Ensures-raise,
}
use layerscope.Scanner.Outside.{
  Await, Outside, suspend, answer, Answer, gives, throws, spawn_wait, line_wait, Exit, exits,
  expires,
}
use layerscope.Scanner.Claim.{take_read_lock, prepare, own_workspace, own_process, launch}
use layerscope.Scanner.Results.{gone, finish_wait, check_exit, save, saving_scan, replace_results}
use layerscope.Scanner.Output.{Reader, consume_line, infer_progress, hint_patch}
use layerscope.Scanner.Run.{Readers, read_line, read_output, read_results, rows_of, load_payload}

-- What a row may be: removed, or with a status that satisfies `k`; running or cancelled; queued; at
-- an end.
abbrev pub stands : (Status → Bool) → Option Scan → Bool
stands k none = true
stands k (some s) = k s.status

abbrev pub is_held : Status → Bool
is_held s = is_running s || is_cancelled s

abbrev pub held : Option Scan → Bool
held = stands is_held

abbrev pub waits : Option Scan → Bool
waits none = false
waits (some s) = is_queued s.status

abbrev pub ended : Option Scan → Bool
ended none = true
ended (some s) = is_terminal s.status

open_of : (k : Status → Bool) (s : Option Scan) → stands k s ≡ true → (stands k s || waits s) ≡ true
open_of k s h = rw h

-- What other tasks may do to the scan of a worker: nothing, or cancel or remove it.
pub record Spares (i : ℕ) (g : ScanManager → ScanManager) : Type 0 where
  pub outcome :
      (m : ScanManager) → (get_scan (g m) i ≡ get_scan m i) ⊎ (gone (get_scan (g m) i) ≡ true)

pub cancel-Spares : (i j : ℕ) → Spares i (λ m. (cancel j m).0)
cancel-Spares i j = record { outcome = λ m. ground (arith, get-cancel j i m) }

module _ (i : ℕ) where
  abbrev pub Gone : Frame → Type 0
  Gone f = gone (get_scan f.manager i) ≡ true

  abbrev pub Waits : Frame → Type 0
  Waits f = waits (get_scan f.manager i) ≡ true

  abbrev pub Ended : Frame → Type 0
  Ended f = ended (get_scan f.manager i) ≡ true

module _ (k : Status → Bool) (i : ℕ) where
  abbrev pub Held : Frame → Type 0
  Held f = stands k (get_scan f.manager i) ≡ true

  abbrev pub Open : Frame → Type 0
  Open f = (stands k (get_scan f.manager i) || waits (get_scan f.manager i)) ≡ true

  Open-Held : (f : Frame) → Held f → Open f
  Open-Held f h = rw h

module _ (k : Status → Bool) (keeps_cancelled : k cancelled ≡ true) (i : ℕ) where
  pub held-put :
      (m : ScanManager) (f : Scan → Scan)
      → ((s : Scan) → ((f s).id ≡ s.id) × ((f s).status ≡ s.status))
      → stands k (get_scan m i) ≡ true
      → stands k (get_scan (put_scan m i f) i) ≡ true
  held-put m f same h = elim (Option-cases (get_scan m i)) [
    | inl e ↦ rw (get-put m i i f (λ s. (same s).0), ==_refl i, e)
    | inr (s, e) ↦
        rw (get-put m i i f (λ s. (same s).0), ==_refl i, e) (rw ((same s).1) (rw e at h))
  ]

  pub held-update :
      (m : ScanManager) (p : Patch)
      → p.status ≡ none
      → stands k (get_scan m i) ≡ true
      → stands k (get_scan (update_job i p m).0 i) ≡ true
  held-update m p e h = ground (arith, get-update_job i i m p)

  pub held-publish :
      (m : ScanManager)
      → stands k (get_scan m i) ≡ true
      → stands k (get_scan (publish_job i m) i) ≡ true
  held-publish m h = rw get-publish_job h

  pub held-prepare :
      (o : Outside) (m : ScanManager)
      → stands k (get_scan m i) ≡ true
      → stands k (get_scan (prepare o i m) i) ≡ true
  unfolding prepare
  held-prepare o m h = held-update _ _ refl (held-put m _ (λ s. (refl, refl)) h)

  pub take_read_lock-Held : Ensures (Held k i) (λ _. Held k i) (Gone i) (Open k i) take_read_lock
  unfolding take_read_lock
  take_read_lock-Held = record { at = λ f h. h }

  pub own_workspace-Held : Ensures (Held k i) (λ _. Held k i) (Gone i) (Open k i) (own_workspace i)
  unfolding own_workspace
  own_workspace-Held = record { at = λ f h. h }

  pub own_process-Held : Ensures (Held k i) (λ _. Held k i) (Gone i) (Open k i) (own_process i)
  unfolding own_process
  own_process-Held = record { at = λ f h. h }

  -- After other tasks ran.
  held_after :
      (m m' : ScanManager)
      → (get_scan m' i ≡ get_scan m i) ⊎ (gone (get_scan m' i) ≡ true)
      → stands k (get_scan m i) ≡ true
      → stands k (get_scan m' i) ≡ true
  held_after m m' d h = ground arith

  pub answer-Held :
      {A : Type 0} (x : Answer A)
      → Ensures (Held k i) (λ _. Held k i) (Gone i) (Open k i) (answer x)
  unfolding answer
  answer-Held (gives a) = record { at = λ f h. h }
  answer-Held (throws e) = record { at = Open-Held k i }

  module _ (o : Outside) (civil : (a : Await) → Spares i (o.meanwhile a)) where
    pub suspend-Held :
        (a : Await) → Ensures (Held k i) (λ _. Held k i) (Gone i) (Open k i) (suspend o a)
    unfolding suspend
    suspend-Held a = record {
      at = λ f h. elim (Bool-cases (o.interrupts a)) [
        | inl e ↦ rw e (
            open_of k (get_scan (o.meanwhile a f.manager) i)
              (held_after f.manager (o.meanwhile a f.manager) ((civil a).outcome f.manager) h))
        | inr e ↦
            rw e (held_after f.manager (o.meanwhile a f.manager) ((civil a).outcome f.manager) h)
      ];
    }

    pub launch-Held : Ensures (Held k i) (λ _. Held k i) (Gone i) (Open k i) (launch o i)
    unfolding launch own_workspace own_process
    launch-Held = Ensures-bind (answer-Held o.workspace) λ _.
        Ensures-bind (record { at = λ f h. h })
          λ _.
            Ensures-bind (suspend-Held spawn_wait)
              λ _. Ensures-bind (answer-Held o.spawn) λ _. own_process-Held

    module _ (casefold : Text → Text) where
      consume_line-Held :
          (b : Bool) (line : Text) (r : Reader) (m : ScanManager)
          → stands k (get_scan m i) ≡ true
          → stands k (get_scan (consume_line casefold i b line r m).1 i) ≡ true
      unfolding consume_line
      consume_line-Held b line r m h =
          let hint' = infer_progress (casefold (strip line)) in
          ground (arith, held-update m (hint_patch hint') refl h)

      pub read_line-Held :
          (b : Bool) (line : Text) (r : Readers)
          → Ensures (Held k i) (λ _. Held k i) (Gone i) (Open k i) (read_line casefold o i b line r)
      unfolding read_line
      read_line-Held true line r = record {
        at = λ f h. consume_line-Held true line r.stderr f.manager h;
      }
      read_line-Held false line r = record {
        at = λ f h. consume_line-Held false line r.stdout f.manager h;
      }

      pub read_output-Held :
          (n : ℕ) (lines : List (Bool × Text)) (r : Readers)
          → Ensures
              (Held k i)
              (λ _. Held k i)
              (Gone i)
              (Open k i)
              (read_output casefold o i n lines r)
      unfolding read_output
      read_output-Held n [] r = Ensures-pure r
      read_output-Held n ((b, line) ∷ rest) r =
          Ensures-bind (suspend-Held (line_wait n))
            λ _. Ensures-bind (read_line-Held b line r) λ r'. read_output-Held (suc n) rest r'

  pub finish_wait-Held :
      (c : Settings) (o : Outside) (e : Exit)
      → Ensures (Held k i) (λ _. Held k i) (Gone i) (Open k i) (finish_wait c o i e)
  unfolding finish_wait
  finish_wait-Held c o (exits code) = record { at = λ f h. h }
  finish_wait-Held c o (expires code) = record { at = Open-Held k i }

  pub check_exit-Held :
      (code : ℤ) (tail : List Text)
      → Ensures (Held k i) (λ _. Held k i) (Gone i) (Open k i) (check_exit i code tail)
  unfolding check_exit
  check_exit-Held code tail = record { at = λ f h. ground arith }

  rows_of-Held :
      (o : Outside) (rows : Option (List Package × List Finding))
      → Ensures (Held k i) (λ _. Held k i) (Gone i) (Open k i) (rows_of o rows)
  unfolding rows_of
  rows_of-Held o none = Ensures-raise _ (Open-Held k i)
  rows_of-Held o (some rows) = Ensures-pure rows

  load_payload-Held :
      (c : Settings) (upper : Text → Text) (safe_url : Json → Text) (o : Outside) (size : ℕ)
      → Ensures
          (Held k i)
          (λ _. Held k i)
          (Gone i)
          (Open k i)
          (load_payload c upper safe_url o i size)
  unfolding load_payload
  load_payload-Held c upper safe_url o size =
      Ensures-if _ _ _ (Ensures-raise _ (Open-Held k i)) (answer-Held o.payload)

  pub read_results-Held :
      (c : Settings) (upper : Text → Text) (safe_url : Json → Text) (o : Outside)
      → Ensures (Held k i) (λ _. Held k i) (Gone i) (Open k i) (read_results c upper safe_url o i)
  unfolding read_results
  read_results-Held c upper safe_url o =
      Ensures-bind (Ensures-on_manager _ (λ f h. held-update f.manager _ refl h)) λ _.
        Ensures-bind (answer-Held o.raw_size) λ size.
          Ensures-bind (load_payload-Held c upper safe_url o size) λ payload. rows_of-Held o _

  pub save-Held :
      (packages : List Package) (findings : List Finding)
      → Ensures (Held k i) (λ _. Held k i) (Gone i) (Open k i) (save i packages findings)
  unfolding save
  save-Held packages findings = record {
    at = λ f h.
        let m = replace_results i packages findings f.manager in
        ground (
          arith,
          get-publish_job (put_scan m i saving_scan) i i,
          get-put m i i saving_scan (λ s. refl),
        );
  }
