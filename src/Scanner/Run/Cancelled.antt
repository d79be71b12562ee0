-- ===== src/Scanner/Run/Cancelled.antt =====
-- A scan that another task cancels or removes while `run_scan` is suspended is never completed.
use layerscope.Base.{ℕ, true, ◌≡◌, refl, arith, ◌⊎◌, inl, inr, Bool-cases, ◌&&◌}
use layerscope.Base.Json.{Json}
use layerscope.Base.Text.{Text}
use layerscope.Config.{Settings, managed_roots}
use layerscope.Security.{Roots}
use layerscope.Scanner.{ScanManager, get_scan}
use layerscope.Scanner.Jobs.{Exception, terminate}
use layerscope.Scanner.Rows.{get-put, get-fail_job}
use layerscope.Scanner.Task.{Flow, go, leave, raise, interrupted, Frame}
use layerscope.Scanner.Outside.{unlink_raw, Await, Outside, stop_wait}
use layerscope.Scanner.Results.{gone}
use layerscope.Scanner.Finish.{settle, on_error, on_interrupt}
use layerscope.Scanner.Run.{body, run_scan, start_frame}
use layerscope.Scanner.Run.Held.{held, waits, Spares}
use layerscope.Scanner.Task.Ensures.{Post}
use layerscope.Scanner.Finish.{
  settle, on_error, on_interrupt, paused_scan, pause_found, pause, runs,
}
use layerscope.Scanner.Run.Settles.{get-release}
use layerscope.Scanner.Run.Dying.{Undone, body-Undone, reached, undone}

module _ (o : Outside) (roots : Roots) (i : ℕ) (f : Frame)
    (civil : Spares i (o.meanwhile stop_wait)) where
  on_error-Undone : (e : Exception) → undone (get_scan (on_error roots i e f) i) ≡ true
  unfolding on_error
  on_error-Undone e = ground (arith, get-fail_job i i (unlink_raw i f.manager) roots e)

  pause-Undone :
      (m : ScanManager) → undone (get_scan m i) ≡ true → undone (get_scan (pause i m) i) ≡ true
  unfolding pause pause_found
  pause-Undone m h = ground (arith, get-put m i i paused_scan (λ r. refl))

  undone_after :
      (m m' : ScanManager)
      → (get_scan m' i ≡ get_scan m i) ⊎ (gone (get_scan m' i) ≡ true)
      → undone (get_scan m i) ≡ true
      → undone (get_scan m' i) ≡ true
  undone_after m m' d h = ground arith

  on_interrupt-Undone : Undone i f → undone (get_scan (on_interrupt o i f) i) ≡ true
  unfolding on_interrupt
  on_interrupt-Undone h =
      let m = terminate i f.manager in
      let m' = o.meanwhile stop_wait m in
      let after = undone_after m m' (civil.outcome m) (unfold terminate in h) in
      elim (Bool-cases (f.process && runs i f.manager)) [
        | inl e ↦ elim (Bool-cases (o.interrupts stop_wait)) [
          | inl again ↦ rw (e, again) after
          | inr once ↦ rw (e, once) (pause-Undone m' after)
        ]
        | inr e ↦ rw e (pause-Undone f.manager h)
      ]

  settle-Undone :
      (r : Flow (Unit {0}))
      → Post (λ _. Undone i) (Undone i) (Undone i) r f
      → undone (get_scan (settle o roots i (r, f)).0 i) ≡ true
  unfolding settle
  settle-Undone (go u) h = rw (get-release o roots i f f.manager) h
  settle-Undone leave h = rw (get-release o roots i f f.manager) h
  settle-Undone (raise e) h =
      rw (get-release o roots i f (on_error roots i e f)) (on_error-Undone e)
  settle-Undone interrupted h =
      rw (get-release o roots i f (on_interrupt o i f)) (on_interrupt-Undone h)

-- A queued scan that a worker runs: if other tasks cancel or remove the running scan at one of the
-- suspensions (while the worker waits for the vulnerability database, for the start of Trivy, for any
-- line of its output or for its end), then however the process ends, and whether or not the worker is
-- cancelled too, the scan does not end completed.
pub cancelled_never_completes :
    (c : Settings) (casefold upper : Text → Text) (safe_url : Json → Text) (o : Outside) (i w : ℕ)
    (m : ScanManager)
    → ((a : Await) → Spares i (o.meanwhile a))
    → waits (get_scan m i) ≡ true
    → (a : Await) → reached o a ≡ true
    → ((m' : ScanManager)
        → held (get_scan m' i) ≡ true
        → gone (get_scan (o.meanwhile a m') i) ≡ true)
    → undone (get_scan (run_scan c casefold upper safe_url o i w m).0 i) ≡ true
unfolding run_scan
cancelled_never_completes c casefold upper safe_url o i w m civil q a there cancels =
    let (r, f) = body c casefold upper safe_url o i w (start_frame m) in
    settle-Undone o (managed_roots c) i f (civil stop_wait) r
      ((body-Undone i c casefold upper safe_url o w civil a there cancels).at (start_frame m) q)
