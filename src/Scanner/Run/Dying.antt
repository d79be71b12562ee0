-- ===== src/Scanner/Run/Dying.antt =====
-- The body of `run_scan` for a scan that is cancelled or removed at one of its suspensions.
use layerscope.Base.{
  ℕ, Bool, true, false, List, Option, none, some, ◌≡◌, refl, arith, ◌==◌, inl, inr, not, length,
  Bool-cases, [], ◌∷◌, ltb, ◌<◌, ◌≤◌, ◌+◌, suc, ap,
}
use layerscope.Base.Int.{ℤ}
use layerscope.Base.Json.{Json}
use layerscope.Base.Text.{Text}
use layerscope.Config.{Settings}
use layerscope.Models.{Scan, Finding, Package, is_cancelled, is_completed}
use layerscope.Scanner.{ScanManager, get_scan}
use layerscope.Scanner.Task.{Frame, Task, ◌>>=◌}
use layerscope.Scanner.Task.Ensures.{Ensures, Ensures-bind, Ensures-on_manager}
use layerscope.Scanner.Outside.{
  Await, Outside, suspend, lock_wait, spawn_wait, exit_wait, stop_wait, line_wait,
}
use layerscope.Scanner.Claim.{launch}
use layerscope.Scanner.Results.{gone, finish_wait, check_exit, complete}
use layerscope.Scanner.Run.{Readers, read_results, read_output, body, store_rows, readers_at_start}
use layerscope.Scanner.Run.Held.{
  stands, is_held, held, Spares, Held, Gone, Waits, Open, held-update, held-publish, held-prepare,
  suspend-Held, launch-Held, read_output-Held, finish_wait-Held, check_exit-Held, read_results-Held,
  read_line-Held, answer-Held, own_workspace-Held, own_process-Held, save-Held, take_read_lock-Held,
}
use layerscope.Scanner.Run.Ends.{claim-Held}
use layerscope.Scanner.Task.Ensures.{Ensures-weaken}

abbrev pub undone : Option Scan → Bool
undone none = true
undone (some s) = not (is_completed s.status)

gone→stands : (s : Option Scan) → gone s ≡ true → stands is_cancelled s ≡ true
gone→stands s h = ground arith

-- The suspensions of a run that is not itself cancelled.
abbrev pub reached : Outside → Await → Bool
reached o stop_wait = false
reached o (line_wait n) = ltb n (length o.output)
reached o _ = true

same_line : (k n : ℕ) → (k == n) ≡ true → line_wait k ≡ line_wait n
same_line k n e = ap line_wait ground (arith, e)

module _ (i : ℕ) where
  abbrev pub Undone : Frame → Type 0
  Undone f = undone (get_scan f.manager i) ≡ true

  Undone-Gone : (f : Frame) → Gone i f → Undone f
  Undone-Gone f h = ground arith

  Undone-Open_held : (f : Frame) → Open is_held i f → Undone f
  Undone-Open_held f h = ground arith

  Undone-Open_cancelled : (f : Frame) → Open is_cancelled i f → Undone f
  Undone-Open_cancelled f h = ground arith

  Undone-Held : (f : Frame) → Held is_cancelled i f → Undone f
  Undone-Held f h = ground arith

  -- A piece that keeps the scan alive or dead, and one that keeps it dead.
  alive :
      {A : Type 0} {P : Frame → Type 0} {Q : A → Frame → Type 0} {t : Task A}
      → Ensures P Q (Gone i) (Open is_held i) t
      → Ensures P Q Undone Undone t
  alive = Ensures-weaken (λ a f h. h) Undone-Gone Undone-Open_held

  dead :
      {A : Type 0} {P : Frame → Type 0} {Q : A → Frame → Type 0} {t : Task A}
      → Ensures P Q (Gone i) (Open is_cancelled i) t
      → Ensures P Q Undone Undone t
  dead = Ensures-weaken (λ a f h. h) Undone-Gone Undone-Open_cancelled

  complete-Undone :
      (c : Settings) (found : ℕ)
      → Ensures (Held is_cancelled i) (λ _. Undone) Undone Undone (complete c i found)
  unfolding complete
  complete-Undone c found = record { at = λ f h. ground arith }

  store_rows-Undone :
      (c : Settings) (rows : List Package × List Finding)
      → Ensures (Held is_cancelled i) (λ _. Undone) Undone Undone (store_rows c i rows)
  unfolding store_rows
  store_rows-Undone c (packages, findings) =
      Ensures-bind
        (Ensures-on_manager _ (λ f h. held-update is_cancelled refl i f.manager _ refl h))
        λ _.
          Ensures-bind (dead (save-Held is_cancelled refl i packages findings))
            λ _. complete-Undone c (length findings)

  module _ (o : Outside) (civil : (a : Await) → Spares i (o.meanwhile a)) (a : Await)
      (cancels : (m : ScanManager)
        → held (get_scan m i) ≡ true
        → gone (get_scan (o.meanwhile a m) i) ≡ true) where
    suspend-dead : Ensures (Held is_held i) (λ _. Held is_cancelled i) Undone Undone (suspend o a)
    unfolding suspend
    suspend-dead = record {
      at = λ f h.
          let d = gone→stands (get_scan (o.meanwhile a f.manager) i) (cancels f.manager h) in
          elim (Bool-cases (o.interrupts a)) [
            | inl e ↦ rw e (Undone-Held (record f { manager = o.meanwhile a f.manager }) d)
            | inr e ↦ rw e d
          ];
    }

  module _ (c : Settings) (casefold upper : Text → Text) (safe_url : Json → Text) (o : Outside)
      (w : ℕ) (civil : (a : Await) → Spares i (o.meanwhile a)) where
    -- From the end of the process, for a scan that is already cancelled.
    after_exit :
        (code : ℤ) (r : Readers)
        → Ensures
            (Held is_cancelled i)
            (λ _. Undone)
            Undone
            Undone
            (check_exit i code r.stderr.tail >>= λ _.
              read_results c upper safe_url o i >>= λ rows. store_rows c i rows)
    after_exit code r =
        Ensures-bind (dead (check_exit-Held is_cancelled refl i code r.stderr.tail)) λ _.
          Ensures-bind (dead (read_results-Held is_cancelled refl i c upper safe_url o))
            λ rows. store_rows-Undone c rows

    -- The rest of the body from the lines of the process on, and from its start on.
    abbrev from_output : Task (Unit {0})
    from_output = read_output casefold o i 0 o.output readers_at_start >>= λ r.
        suspend o exit_wait >>= λ _. finish_wait c o i o.exit >>= λ code.
        check_exit i code r.stderr.tail >>= λ _.
        read_results c upper safe_url o i >>= λ rows. store_rows c i rows

    abbrev from_launch : Task (Unit {0})
    from_launch = launch o i >>= λ _. from_output

    ended_dead :
        (r : Readers)
        → Ensures
            (Held is_cancelled i)
            (λ _. Undone)
            Undone
            Undone
            (finish_wait c o i o.exit >>= λ code. check_exit i code r.stderr.tail >>= λ _.
              read_results c upper safe_url o i >>= λ rows. store_rows c i rows)
    ended_dead r =
        Ensures-bind (dead (finish_wait-Held is_cancelled refl i c o o.exit))
          λ code. after_exit code r

    output_dead : Ensures (Held is_cancelled i) (λ _. Undone) Undone Undone from_output
    output_dead =
        Ensures-bind (dead (read_output-Held is_cancelled refl i o civil casefold 0 o.output _))
          λ r.
            Ensures-bind (dead (suspend-Held is_cancelled refl i o civil exit_wait))
              λ _. ended_dead r

    launch_dead : Ensures (Held is_cancelled i) (λ _. Undone) Undone Undone from_launch
    launch_dead = Ensures-bind (dead (launch-Held is_cancelled refl i o civil)) λ _. output_dead

    launch_alive :
        Ensures (Held is_held i) (λ _. Undone) Undone Undone from_output
        → Ensures (Held is_held i) (λ _. Undone) Undone Undone from_launch
    launch_alive h = Ensures-bind (alive (launch-Held is_held refl i o civil)) λ _. h

    -- A scan that is cancelled or removed at a suspension.
    abbrev CancelsAt : Await → Type 0
    CancelsAt a =
        (m : ScanManager) → held (get_scan m i) ≡ true → gone (get_scan (o.meanwhile a m) i) ≡ true

    launch_dying :
        CancelsAt spawn_wait
        → Ensures (Held is_held i) (λ _. Held is_cancelled i) Undone Undone (launch o i)
    unfolding launch
    launch_dying cancels = Ensures-bind (alive (answer-Held is_held refl i o.workspace)) λ _.
        Ensures-bind (alive (own_workspace-Held is_held refl i)) λ _.
          Ensures-bind (suspend-dead o civil spawn_wait cancels) λ _.
            Ensures-bind (dead (answer-Held is_cancelled refl i o.spawn))
              λ _. dead (own_process-Held is_cancelled refl i)

    read_output_dying :
        (n k : ℕ) (lines : List (Bool × Text)) (r : Readers)
        → CancelsAt (line_wait n)
        → k ≤ n
        → n < k + length lines
        → Ensures
            (Held is_held i)
            (λ _. Held is_cancelled i)
            Undone
            Undone
            (read_output casefold o i k lines r)
    unfolding read_output
    read_output_dying n k [] r cancels above below = ground (arith, above, below)
    read_output_dying n k ((b, line) ∷ rest) r cancels above below = elim (Bool-cases (k == n)) [
      | inl e ↦
          Ensures-bind
            (suspend-dead o civil (line_wait k) (λ m h. rw (same_line k n e) (cancels m h)))
            λ _.
              Ensures-bind (dead (read_line-Held is_cancelled refl i o civil casefold b line r))
                λ r'. dead (read_output-Held is_cancelled refl i o civil casefold (suc k) rest r')
      | inr e ↦ Ensures-bind (alive (suspend-Held is_held refl i o civil (line_wait k))) λ _.
          Ensures-bind (alive (read_line-Held is_held refl i o civil casefold b line r)) λ r'.
            read_output_dying n (suc k) rest r' cancels ground (arith, e, above)
              (omega (arith, below))
    ]

    body_alive :
        Ensures (Held is_held i) (λ _. Undone) Undone Undone from_launch
        → Ensures (Waits i) (λ _. Undone) Undone Undone (body c casefold upper safe_url o i w)
    unfolding body
    body_alive h = Ensures-bind (alive (claim-Held i w)) λ path.
        Ensures-bind (Ensures-on_manager _ (λ f h. held-publish is_held refl i f.manager h)) λ _.
          Ensures-bind (alive (suspend-Held is_held refl i o civil lock_wait)) λ _.
            Ensures-bind (alive (take_read_lock-Held is_held refl i)) λ _.
              Ensures-bind (Ensures-on_manager _ (λ f h. held-prepare is_held refl i o f.manager h))
                λ _. h

    body_dying :
        CancelsAt lock_wait
        → Ensures (Waits i) (λ _. Undone) Undone Undone (body c casefold upper safe_url o i w)
    unfolding body
    body_dying cancels = Ensures-bind (alive (claim-Held i w)) λ path.
        Ensures-bind (Ensures-on_manager _ (λ f h. held-publish is_held refl i f.manager h)) λ _.
          Ensures-bind (suspend-dead o civil lock_wait cancels) λ _.
            Ensures-bind (dead (take_read_lock-Held is_cancelled refl i)) λ _.
              Ensures-bind
                (Ensures-on_manager _ (λ f h. held-prepare is_cancelled refl i o f.manager h))
                λ _. launch_dead

    pub body-Undone :
        (a : Await)
        → reached o a ≡ true
        → CancelsAt a
        → Ensures (Waits i) (λ _. Undone) Undone Undone (body c casefold upper safe_url o i w)
    body-Undone lock_wait there cancels = body_dying cancels
    body-Undone spawn_wait there cancels =
        body_alive (Ensures-bind (launch_dying cancels) λ _. output_dead)
    body-Undone exit_wait there cancels = body_alive (
        launch_alive (
          Ensures-bind (alive (read_output-Held is_held refl i o civil casefold 0 o.output _))
            λ r. Ensures-bind (suspend-dead o civil exit_wait cancels) λ _. ended_dead r))
    body-Undone stop_wait there cancels = ground (arith, there)
    body-Undone (line_wait n) there cancels = body_alive (
        launch_alive (
          Ensures-bind
            (read_output_dying n 0 o.output _ cancels (omega arith) ground (arith, there))
            λ r.
              Ensures-bind (dead (suspend-Held is_cancelled refl i o civil exit_wait))
                λ _. ended_dead r))
