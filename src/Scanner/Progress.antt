-- ===== src/Scanner/Progress.antt =====
-- What `update_job` may make of a row.
use layerscope.Base.{ℕ, ◌≤◌, ◌≡◌, true, false, Option, none, some, arith, length, max, min, not}
use layerscope.Base.Text.{Text, length-take-le, strip}
use layerscope.Models.{Scan, is_cancelled}
use layerscope.Scanner.{ScanManager, get_scan}
use layerscope.Scanner.Jobs.{Patch, update_job, patched, new_message, new_error}
use layerscope.Scanner.Rows.{get-update_job, unless_cancelled}

-- `text[:n]` where a text is given, and what was there otherwise.
abbrev pub FitsOr : ℕ → Option Text → Option Text → Type 0
FitsOr n none new = Unit
FitsOr n (some given) none = ⊥
FitsOr n (some given) (some t) = length t ≤ n

new_message-fits :
    (given : Option Text) (old : Text) → length (new_message given old) ≤ max 500 (length old)
new_message-fits none old = omega arith
new_message-fits (some t) old = omega (arith, length-take-le 500 (strip t))

new_error-fits : (given old : Option Text) → FitsOr 4000 given (new_error given old)
new_error-fits none old = tt
new_error-fits (some t) old = length-take-le 4000 t

-- The progress that a call asks for, at most 100.
abbrev pub reached : Option ℕ → ℕ
reached none = 0
reached (some n) = min n 100

reached-le : (o : Option ℕ) (n : ℕ) → reached o ≤ elim o [ none ↦ n | some k ↦ max n (min 100 k) ]
reached-le none n = omega arith
reached-le (some k) n = omega arith

-- On a scan that is there and not cancelled, `update_job` brings the progress up to the given one at
-- least, never lowers it and never raises it above 100 (unless it was above already), cuts a new stage to 40 characters, a new message to
-- 500 and a new error to 4000, and answers true; a cancelled scan it leaves as it is, and answers false.
pub update_job_bounds :
    (i : ℕ) (p : Patch) (m : ScanManager) (s : Scan)
    → get_scan m i ≡ some s
    → (s' : Scan) × (get_scan (update_job i p m).0 i ≡ some s')
      × (s.progress ≤ s'.progress)
      × (s'.progress ≤ max s.progress 100)
      × (is_cancelled s.status ≡ false → reached p.progress ≤ s'.progress)
      × (length s'.stage ≤ max 40 (length s.stage))
      × (length s'.message ≤ max 500 (length s.message))
      × (is_cancelled s.status ≡ false → FitsOr 4000 p.error s'.error)
      × (is_cancelled s.status ≡ true → s' ≡ s)
      × ((update_job i p m).1 ≡ not (is_cancelled s.status))
unfolding update_job
update_job_bounds i p m s e = (
  unless_cancelled (patched p m.clock) s,
  ground (arith, get-update_job i i m p),
  ground arith,
  ground arith,
  λ live. rw live (reached-le p.progress s.progress),
  ground (arith, length-take-le 40 p.stage),
  ground (arith, new_message-fits p.message s.message),
  λ live. rw live (new_error-fits p.error s.error),
  ground arith,
  ground arith,
)
