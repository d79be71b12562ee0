-- ===== src/Cli.antt =====
-- cli/src/layerscope_cli/cli.py: the exit codes, the severity gate and the outcome of a wait.
use layerscope.Base.{
  ℕ, ◌≡◌, refl, Bool, true, false, not, ◌&&◌, ◌||◌, List, [], ◌∷◌, ◌++◌, Option, none, some, ◌==◌,
  leb, ltb, select, any, all, arith, if◌then◌else◌,
}
use layerscope.Base.Text.{Text, text, same}
use layerscope.Models.{Status, queued, running, completed, failed, cancelled}

-- The constants EXIT_….
pub data Exit : Type 0 where
  exit_ok exit_usage exit_auth exit_permission exit_not_found exit_conflict exit_capacity : Exit
  exit_server exit_network exit_job_failed exit_cancelled exit_policy exit_timeout : Exit

unfoldable pub code : Exit → ℕ
code exit_ok = 0
code exit_usage = 2
code exit_auth = 3
code exit_permission = 4
code exit_not_found = 5
code exit_conflict = 6
code exit_capacity = 7
code exit_server = 8
code exit_network = 9
code exit_job_failed = 10
code exit_cancelled = 11
code exit_policy = 12
code exit_timeout = 13

-- `_http_exit`
unfoldable pub http_exit : ℕ → Exit
http_exit status =
    if status == 401
    then exit_auth
    else if status == 403
    then exit_permission
    else if status == 404
    then exit_not_found
    else if status == 409 || status == 412
    then exit_conflict
    else if status == 429 || status == 507
    then exit_capacity
    else if leb 500 status
    then exit_server
    else exit_usage

-- `SEVERITY_RANK.get(severity, 0)`
unfoldable pub severity_rank : Text → ℕ
severity_rank s =
    if same s (text "LOW")
    then 1
    else if same s (text "MEDIUM")
    then 2
    else if same s (text "HIGH")
    then 3
    else if same s (text "CRITICAL")
    then 4
    else 0

-- The counts of a summary: severity and number of findings, the severity in upper case already.
abbrev pub Counts : Type 0
Counts = List (Text × ℕ)

abbrev pub nonzero : ℕ → Bool
nonzero n = not (n == 0)

abbrev pub reaches : ℕ → Text × ℕ → Bool
reaches threshold (severity, n) = nonzero n && leb threshold (severity_rank severity)

abbrev pub is_unknown : Text × ℕ → Bool
is_unknown (severity, n) = nonzero n && same severity (text "UNKNOWN")

abbrev pub over_threshold : Option Text → Counts → Counts
over_threshold none counts = []
over_threshold (some fail_on) counts = select (reaches (severity_rank fail_on)) counts

-- `matched`: what the threshold matches, and the unknown ones if they count too.
unfoldable pub matched : Counts → Option Text → Bool → Counts
matched counts fail_on fail_on_unknown =
    over_threshold fail_on counts ++ (if fail_on_unknown then select is_unknown counts else [])

abbrev pub is_empty : Counts → Bool
is_empty [] = true
is_empty (x ∷ xs) = false

-- `gate_result(…)["passed"]`
unfoldable pub gate_passed : Option Text → Bool → Counts → Bool
gate_passed fail_on fail_on_unknown counts = is_empty (matched counts fail_on fail_on_unknown)

-- The exit code of `policy`.
unfoldable pub policy : Option Text → Bool → List Counts → Exit
policy fail_on fail_on_unknown summaries =
    if any (λ (counts : Counts). not (gate_passed fail_on fail_on_unknown counts)) summaries
    then exit_policy
    else exit_ok

abbrev pub is_failed : Status → Bool
is_failed failed = true
is_failed queued = false
is_failed running = false
is_failed completed = false
is_failed cancelled = false

abbrev pub was_cancelled : Status → Bool
was_cancelled cancelled = true
was_cancelled queued = false
was_cancelled running = false
was_cancelled completed = false
was_cancelled failed = false

-- The exit code of `wait_for_scans` for the summaries of finished scans.
unfoldable pub wait_exit : List Status → Exit
wait_exit summaries =
    if any is_failed summaries
    then exit_job_failed
    else if any was_cancelled summaries
    then exit_cancelled
    else exit_ok

-- A finding count that lets a gate pass.
abbrev pub harmless : ℕ → Text × ℕ → Bool
harmless threshold (severity, n) = not (nonzero n) || ltb (severity_rank severity) threshold

none_reach :
    (threshold : ℕ) (counts rest : Counts)
    → is_empty (select (reaches threshold) counts ++ rest) ≡ true
    → all (harmless threshold) counts ≡ true
none_reach threshold [] rest h = refl
none_reach threshold ((severity, n) ∷ counts) rest h =
    ground (arith, h, none_reach threshold counts rest)

gate_passed-harmless :
    (fail_on : Text) (fail_on_unknown : Bool) (counts : Counts)
    → gate_passed (some fail_on) fail_on_unknown counts ≡ true
    → all (harmless (severity_rank fail_on)) counts ≡ true
unfolding gate_passed matched
gate_passed-harmless fail_on fail_on_unknown counts h =
    none_reach (severity_rank fail_on) counts _ h

-- When `policy` exits with success under a threshold, no summary counts a finding at or above it.
pub policy-harmless :
    (fail_on : Text) (fail_on_unknown : Bool) (summaries : List Counts)
    → code (policy (some fail_on) fail_on_unknown summaries) ≡ 0
    → all (λ (counts : Counts). all (harmless (severity_rank fail_on)) counts) summaries ≡ true
unfolding policy code
policy-harmless fail_on fail_on_unknown [] h = refl
policy-harmless fail_on fail_on_unknown (counts ∷ summaries) h = ground (
  arith,
  h,
  gate_passed-harmless fail_on fail_on_unknown counts,
  policy-harmless fail_on fail_on_unknown summaries,
)
