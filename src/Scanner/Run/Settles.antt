-- ===== src/Scanner/Run/Settles.antt =====
-- How a scan's row stands when `run_scan` has ended.
use layerscope.Base.{
  ℕ, Bool, true, false, ◌||◌, ◌&&◌, ◌⊎◌, Option, ◌≡◌, refl, arith, Bool-cases, inl, inr,
}
use layerscope.Base.Json.{Json}
use layerscope.Base.Text.{Text}
use layerscope.Config.{Settings, managed_roots}
use layerscope.Models.{Scan}
use layerscope.Security.{Roots}
use layerscope.Scanner.{ScanManager, get_scan}
use layerscope.Scanner.Jobs.{Exception, terminate}
use layerscope.Scanner.Rows.{get-put, get-fail_job}
use layerscope.Scanner.Task.{Flow, go, leave, raise, interrupted, Frame}
use layerscope.Scanner.Task.Ensures.{Post}
use layerscope.Scanner.Outside.{Await, Outside, stop_wait, unlink_raw}
use layerscope.Scanner.Results.{gone}
use layerscope.Scanner.Finish.{
  settle, on_error, on_interrupt, release, paused_scan, pause_found, pause, runs,
}
use layerscope.Scanner.Run.{body, run_scan, start_frame}
use layerscope.Scanner.Run.Held.{is_held, held, waits, ended, Spares, Ended, Gone, Open}
use layerscope.Scanner.Run.Ends.{body-Ended}

-- What a pause leaves: a queued scan, or one that is cancelled or removed.
abbrev pub resumable : Option Scan → Bool
resumable s = gone s || waits s

pause-resumable :
    (i : ℕ) (m : ScanManager)
    → (held (get_scan m i) || waits (get_scan m i)) ≡ true
    → (pause i m).stopping ≡ true
    → resumable (get_scan (pause i m) i) ≡ true
unfolding pause pause_found
pause-resumable i m h s = ground (arith, get-put m i i paused_scan (λ r. refl))

-- After other tasks ran.
open_after :
    (i : ℕ) (m m' : ScanManager)
    → (get_scan m' i ≡ get_scan m i) ⊎ (gone (get_scan m' i) ≡ true)
    → (held (get_scan m i) || waits (get_scan m i)) ≡ true
    → (held (get_scan m' i) || waits (get_scan m' i)) ≡ true
open_after i m m' d h = ground arith

module _ (o : Outside) (roots : Roots) (i : ℕ) (f : Frame) where
  pub get-release : (m : ScanManager) → get_scan (release i f m) i ≡ get_scan m i
  unfolding release
  get-release m = elim (Bool-cases f.read_lock) [ inl e ↦ rw e | inr e ↦ rw e ]

  stopping-release : (m : ScanManager) → (release i f m).stopping ≡ m.stopping
  unfolding release
  stopping-release m = elim (Bool-cases f.read_lock) [ inl e ↦ rw e | inr e ↦ rw e ]

  on_error-Ended : (e : Exception) → ended (get_scan (on_error roots i e f) i) ≡ true
  unfolding on_error
  on_error-Ended e = ground (arith, get-fail_job i i (unlink_raw i f.manager) roots e)

  on_interrupt-resumable :
      Spares i (o.meanwhile stop_wait)
      → o.interrupts stop_wait ≡ false
      → Open is_held i f
      → (on_interrupt o i f).stopping ≡ true
      → resumable (get_scan (on_interrupt o i f) i) ≡ true
  unfolding on_interrupt
  on_interrupt-resumable civil once h = elim (Bool-cases (f.process && runs i f.manager)) [
    | inl e ↦
        let m = terminate i f.manager in
        let m' = o.meanwhile stop_wait m in
        rw (e, once)
          (λ s.
            pause-resumable i m' (open_after i m m' (civil.outcome m) (unfold terminate in h)) s)
    | inr e ↦ rw e (λ s. pause-resumable i f.manager h s)
  ]

  settle-Ended :
      (r : Flow (Unit {0}))
      → Post (λ _. Ended i) (Gone i) (Open is_held i) r f
      → (settle o roots i (r, f)).1 ≡ false
      → ended (get_scan (settle o roots i (r, f)).0 i) ≡ true
  unfolding settle
  settle-Ended (go u) h s = rw get-release h
  settle-Ended leave h s = rw get-release (ground arith)
  settle-Ended (raise e) h s = rw get-release (on_error-Ended e)
  settle-Ended interrupted h s = cc

  settle-resumable :
      (r : Flow (Unit {0}))
      → Spares i (o.meanwhile stop_wait)
      → o.interrupts stop_wait ≡ false
      → Post (λ _. Ended i) (Gone i) (Open is_held i) r f
      → (settle o roots i (r, f)).1 ≡ true
      → (settle o roots i (r, f)).0.stopping ≡ true
      → resumable (get_scan (settle o roots i (r, f)).0 i) ≡ true
  unfolding settle
  settle-resumable interrupted civil once h s t =
      rw get-release
        (on_interrupt-resumable civil once h (rw (← stopping-release (on_interrupt o i f)) t))
  settle-resumable _ civil once h s t = cc

module _ (c : Settings) (casefold upper : Text → Text) (safe_url : Json → Text) (o : Outside)
    (i w : ℕ) (m : ScanManager) (civil : (a : Await) → Spares i (o.meanwhile a))
    (queued_here : waits (get_scan m i) ≡ true) where
  -- A queued scan that a worker runs, whatever the process answers and whenever others cancel or
  -- remove it: if the worker is not itself cancelled, the scan ends completed, failed or cancelled,
  -- or its row is gone.
  pub run_scan_settles :
      (run_scan c casefold upper safe_url o i w m).1 ≡ false
      → ended (get_scan (run_scan c casefold upper safe_url o i w m).0 i) ≡ true
  unfolding run_scan
  run_scan_settles =
      let (r, f) = body c casefold upper safe_url o i w (start_frame m) in
      settle-Ended o (managed_roots c) i f r
        ((body-Ended i c casefold upper safe_url o w civil).at (start_frame m) queued_here)

  -- If the worker is cancelled while the manager is stopping, and not a second time while it waits for
  -- the process that it has told to end, the scan is queued again, or it was cancelled or removed.
  pub run_scan_resumes :
      o.interrupts stop_wait ≡ false
      → (run_scan c casefold upper safe_url o i w m).1 ≡ true
      → (run_scan c casefold upper safe_url o i w m).0.stopping ≡ true
      → resumable (get_scan (run_scan c casefold upper safe_url o i w m).0 i) ≡ true
  unfolding run_scan
  run_scan_resumes once =
      let (r, f) = body c casefold upper safe_url o i w (start_frame m) in
      settle-resumable o (managed_roots c) i f r (civil stop_wait) once
        ((body-Ended i c casefold upper safe_url o w civil).at (start_frame m) queued_here)
