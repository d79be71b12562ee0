-- ===== src/Scanner/Run/Released.antt =====
-- What `run_scan` holds when it has ended: no process entry and no read lock.
use layerscope.Base.{
  ℕ, ◌+◌, false, List, [], ◌∷◌, ◌≡◌, refl, arith, ◌==◌, inl, inr, not, any, select, Bool-cases,
}
use layerscope.Base.Json.{Json}
use layerscope.Base.Text.{Text}
use layerscope.Config.{Settings, managed_roots}
use layerscope.Security.{Roots}
use layerscope.Scanner.{ScanManager, Process}
use layerscope.Scanner.Jobs.{terminate}
use layerscope.Scanner.Task.{Flow, go, leave, raise, interrupted, Frame}
use layerscope.Scanner.Outside.{unlink_raw, Await, Outside, stop_wait}
use layerscope.Scanner.Finish.{settle, on_error, on_interrupt, release}
use layerscope.Scanner.Run.{body, run_scan, start_frame}
use layerscope.Scanner.Task.Ensures.{Post}
use layerscope.Scanner.Finish.{settle, on_error, on_interrupt, release, pause_found, pause}
use layerscope.Locks.Exclusion.{one_if}
use layerscope.Scanner.Run.Balance.{Balanced, access-fail_job, body-Balances}

any_removed :
    (i : ℕ) (ps : List Process)
    → any (λ (p : Process). p.scan_id == i) (select (λ (p : Process). not (p.scan_id == i)) ps)
      ≡ false
any_removed i [] = refl
any_removed i (p ∷ ps) = ground (arith, any_removed i ps)

-- The `finally` gives back what the frame says is held.
readers-release :
    (n i : ℕ) (f : Frame) (m : ScanManager)
    → m.access.readers ≡ n + one_if f.read_lock
    → (release i f m).access.readers ≡ n
unfolding release
readers-release n i f m h = ground arith

processes-release :
    (i : ℕ) (f : Frame) (m : ScanManager)
    → any (λ (p : Process). p.scan_id == i) (release i f m).processes ≡ false
unfolding release
processes-release i f m = elim (Bool-cases f.read_lock) [
  | inl e ↦ rw e (any_removed i m.processes)
  | inr e ↦ rw e (any_removed i m.processes)
]

access-pause : (i : ℕ) (m : ScanManager) → (pause i m).access ≡ m.access
unfolding pause pause_found
access-pause i m = ground arith

readers-on_interrupt :
    (o : Outside) (i : ℕ) (f : Frame)
    → ((m : ScanManager) → (o.meanwhile stop_wait m).access.readers ≡ m.access.readers)
    → (on_interrupt o i f).access.readers ≡ f.manager.access.readers
unfolding on_interrupt terminate
readers-on_interrupt o i f fair =
    let m = o.meanwhile stop_wait (terminate i f.manager) in
    ground (arith, fair (terminate i f.manager), access-pause i m, access-pause i f.manager)

module _ (o : Outside)
    (fair : (m : ScanManager) → (o.meanwhile stop_wait m).access.readers ≡ m.access.readers)
    (roots : Roots) (n i : ℕ) (f : Frame) where
  settle-readers :
      (r : Flow (Unit {0}))
      → Post (λ _. Balanced n i) (Balanced n i) (Balanced n i) r f
      → (settle o roots i (r, f)).0.access.readers ≡ n
  unfolding settle on_error
  settle-readers (go u) h = readers-release n i f f.manager h
  settle-readers leave h = readers-release n i f f.manager h
  settle-readers (raise e) h =
      readers-release n i f _ (ground (arith, access-fail_job roots i e (unlink_raw i f.manager)))
  settle-readers interrupted h =
      readers-release n i f _ (ground (arith, readers-on_interrupt o i f fair))

  settle-processes :
      (r : Flow (Unit {0}))
      → any (λ (p : Process). p.scan_id == i) (settle o roots i (r, f)).0.processes ≡ false
  unfolding settle
  settle-processes (go u) = processes-release i f f.manager
  settle-processes leave = processes-release i f f.manager
  settle-processes (raise e) = processes-release i f (on_error roots i e f)
  settle-processes interrupted = processes-release i f (on_interrupt o i f)

-- However `run_scan` ends, by a result, a return, an exception or a cancellation at any suspension,
-- no process entry of its scan is left, and the database lock is read as often as before, provided
-- that the other tasks give back what they take of the lock.
pub run_scan_releases :
    (c : Settings) (casefold upper : Text → Text) (safe_url : Json → Text) (o : Outside) (i w : ℕ)
    (m : ScanManager)
    → ((a : Await) (m' : ScanManager) → (o.meanwhile a m').access.readers ≡ m'.access.readers)
    → ((run_scan c casefold upper safe_url o i w m).0.access.readers ≡ m.access.readers)
      × (any
            (λ (p : Process). p.scan_id == i)
            (run_scan c casefold upper safe_url o i w m).0.processes
          ≡ false)
unfolding run_scan
run_scan_releases c casefold upper safe_url o i w m fair =
    let (r, f) = body c casefold upper safe_url o i w (start_frame m) in
    (
      settle-readers o (fair stop_wait) (managed_roots c) m.access.readers i f r (
          (body-Balances m.access.readers i o fair c casefold upper safe_url w).at (start_frame m)
            (refl, refl)),
      settle-processes o (fair stop_wait) (managed_roots c) m.access.readers i f r,
    )
