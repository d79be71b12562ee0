-- ===== src/Components/Download.antt =====
-- ComponentManager.check, download and consume.
use layerscope.Base.{
  ℕ, suc, ◌+◌, ◌-◌, Bool, true, false, not, ◌||◌, List, [], ◌∷◌, ◌++◌, Option, none, some, ◌==◌,
  select, if◌then◌else◌,
}
use layerscope.Base.Int.{ℤ, show}
use layerscope.Base.Json.{
  Json, null, boolean, number, string, object, end, field, dumps, ascii_style,
}
use layerscope.Base.Text.{Text, text, decimal, strip, nonempty, contains, join, last, or_text}
use layerscope.Config.{Settings}
use layerscope.Models.{Component, vulnerability_db, java_db}
use layerscope.Scanner.Jobs.{process_key}
use layerscope.Scanner.Output.{push_tail}
use layerscope.Scanner.Outside.{Answer, gives, throws, Exit, exits, expires, runtime_error}
use layerscope.Scanner.Results.{is_zero}
use layerscope.Scanner.{Process}
use layerscope.Scanner.Task.{Flow, go, leave, raise, interrupted}
use layerscope.Components.{
  ComponentManager, get_job, terminate_component, report, complete_component, job_gone,
}
use layerscope.Components.Outside.{
  Moment, Await, registry_wait, lock_wait, spawn_wait, exit_wait, line_wait, Outside, DatabaseInfo,
  database_info, registry_reachable,
}
use layerscope.Base.Table

-- A piece of a job's coroutine.
abbrev pub Work : Type 0 → Type 0
Work A = ComponentManager → Flow A × ComponentManager

abbrev pub after : {A B : Type 0} → Flow A → (A → Work B) → Work B
after (go a) k m = k a m
after leave k m = (leave, m)
after (raise e) k m = (raise e, m)
after interrupted k m = (interrupted, m)

infixl 5 ◌>>=◌ ◌>>◌
unfoldable pub ◌>>=◌ : {A B : Type 0} → Work A → (A → Work B) → Work B
◌>>=◌ t k m = let (r, m') = t m in after r k m'

abbrev pub ◌>>◌ : {B : Type 0} → Work (Unit {0}) → Work B → Work B
t >> k = t >>= λ _. k

-- An `await` that suspends.
unfoldable pub suspend_job : Outside → Await → Work (Unit {0})
suspend_job o a m =
    let m' = o.meanwhile a m in if o.interrupts a then (interrupted, m') else (go tt, m')

unfoldable pub answer_job : {A : Type 0} → Answer A → Work A
answer_job (gives a) m = (go a, m)
answer_job (throws e) m = (raise e, m)

-- A statement that changes the manager alone.
unfoldable pub doing : (ComponentManager → ComponentManager) → Work (Unit {0})
doing f m = (go tt, f m)

abbrev pub reporting : ℕ → ℕ → Text → Text → Work (Unit {0})
reporting i progress stage message = doing (λ m. (report i progress stage message m).0)

-- `str(moment) if moment else None`
abbrev pub moment_json : Outside → Option Moment → Json
moment_json o none = null
moment_json o (some t) = string (o.show_moment t)

abbrev pub repositories : Settings → Component → List Text
repositories c vulnerability_db = c.db_repositories
repositories c java_db = c.java_db_repositories

-- The result that `check` stores.
unfoldable pub check_result : Outside → DatabaseInfo → Bool → Json
check_result o info reachable = object (
    field (text "installed") (boolean info.installed) (
      field (text "updated_at") (moment_json o info.updated_at) (
        field (text "next_update") (moment_json o info.next_update) (
          field (text "update_available") (boolean (info.update_available || not info.installed))
            (field (text "registry_reachable") (boolean reachable) end)))))

unfoldable pub check_message : DatabaseInfo → Text
check_message info =
    if info.update_available || not info.installed
    then text "Update recommended"
    else text "Installed database is within its update window"

abbrev pub inspect : Outside → Component → Work DatabaseInfo
inspect o component m =
    answer_job (database_info o m.scanner.clock (o.size_bytes component) (o.metadata component)) m

-- `check(job_id, component)`
unfoldable pub check_component : Settings → Outside → ℕ → Component → Work (Unit {0})
check_component c o i component = do
  reporting i 35 (text "inspecting") (text "Reading installed database metadata")
  info ← inspect o component
  reporting i 65 (text "checking_registry") (text "Checking configured registry access")
  suspend_job o registry_wait
  reachable ← answer_job (registry_reachable o.registry (repositories c component))
  doing (
      complete_component i (dumps ascii_style (check_result o info reachable)) (check_message info))

-- The repositories as options of the command.
abbrev pub repository_options : Text → List Text → List Text
repository_options option [] = []
repository_options option (r ∷ rs) = option ∷ r ∷ repository_options option rs

abbrev pub database_options : Settings → Component → List Text
database_options c vulnerability_db =
    text "--download-db-only" ∷ repository_options (text "--db-repository") c.db_repositories
database_options c java_db =
    text "--download-java-db-only"
    ∷ repository_options (text "--java-db-repository") c.java_db_repositories

-- The command that `download` starts.
unfoldable pub download_command : Settings → Component → List Text
download_command c component =
    c.trivy_binary
    ∷ text "image"
    ∷ text "--cache-dir"
    ∷ c.trivy_cache_dir
    ∷ text "--no-progress"
    ∷ text "--disable-telemetry"
    ∷ database_options c component

-- What the end of `acquire_write` does to the lock; what wakes it is the matter of Locks.
unfoldable pub begin_write : ComponentManager → ComponentManager
begin_write m =
    let s = m.scanner in
    record m {
      scanner = record s {
        access = record (s.access) { waiting_writers = s.access.waiting_writers + 1 };
      };
    }

unfoldable pub end_wait : ComponentManager → ComponentManager
end_wait m =
    let s = m.scanner in
    record m {
      scanner = record s {
        access = record (s.access) { waiting_writers = s.access.waiting_writers - 1 };
      };
    }

unfoldable pub set_writer : Bool → ComponentManager → ComponentManager
set_writer b m =
    let s = m.scanner in
    record m { scanner = record s { access = record (s.access) { writer = b } } }

-- `acquire_write()`: the `finally` of the wait runs before a cancellation goes on.
unfoldable pub take_write_lock : Outside → Work (Unit {0})
unfolding begin_write end_wait set_writer
take_write_lock o m =
    let m' = end_wait (o.meanwhile lock_wait (begin_write m)) in
    if o.interrupts lock_wait then (interrupted, m') else (go tt, set_writer true m')

unfoldable pub add_process : ℕ → ComponentManager → ComponentManager
add_process i m = record m {
  processes = record { scan_id = i; returncode = none; terminated = false } ∷ m.processes;
}

-- `consume`, for one decoded line of either stream.
module _ (casefold : Text → Text) where
  unfoldable pub consume_progress : ℕ → Text → ComponentManager → ComponentManager
  consume_progress i line m =
      let lowered = casefold line in
      if contains (text "downloading") lowered
      then (report i 48 (text "downloading") (text "Downloading the OCI database artifact") m).0
      else if contains (text "artifact") lowered || contains (text "blob") lowered
      then (report i 68 (text "extracting") (text "Extracting and installing database files") m).0
      else m

  unfoldable pub consume : Outside → ℕ → ℕ → List Text → List Text → Work (List Text)
  unfolding push_tail
  consume o i n [] lines m = (go lines, m)
  consume o i n (raw ∷ rest) lines m =
      let line = strip raw in
      ((do
        suspend_job o (line_wait n)
        doing (λ m'. if nonempty line then consume_progress i line m' else m')
        consume o i (suc n) rest (if nonempty line then push_tail lines line else lines))
        m)

abbrev pub exit_code : ℕ → ℤ → ComponentManager → ComponentManager
exit_code i code m = record m {
  processes = Table.modify process_key i (λ p. record p { returncode = some code }) m.processes;
}

-- The wait for the process, with the timeout.
unfoldable pub wait_process : Settings → ℕ → Exit → Work ℤ
wait_process c i (exits code) m = (go code, exit_code i code m)
wait_process c i (expires code) m = (
  raise (
      runtime_error (
        text "Database maintenance exceeded the "
        ++ (decimal c.trivy_timeout_seconds ++ text "-second timeout"))),
  exit_code i code (terminate_component i m),
)

-- After the process: a cancelled job ends here, and so does a process that failed.
unfoldable pub check_download : ℕ → ℤ → List Text → Work (Unit {0})
check_download i code lines m =
    if job_gone (get_job m i) then (leave, m) else if is_zero code then (go tt, m) else (
      raise (
          runtime_error (
            or_text (last 4000 (join (text "\n") lines))
              (text "Trivy exited with code " ++ show code))),
      m,
    )

abbrev pub check_installed : DatabaseInfo → Work (Unit {0})
check_installed info m =
    if info.installed
    then (go tt, m)
    else (raise (runtime_error (text "Trivy completed without installing database metadata")), m)

unfoldable pub download_result : Outside → DatabaseInfo → Json
download_result o info = object (
    field (text "updated_at") (moment_json o info.updated_at) (
      field (text "next_update") (moment_json o info.next_update)
        (field (text "size_bytes") (number (decimal info.size_bytes)) end)))

-- The `finally` of `download`.
unfoldable pub give_back : ℕ → ComponentManager → ComponentManager
unfolding set_writer
give_back i m =
    set_writer false
      (record m { processes = select (λ (p : Process). not (p.scan_id == i)) m.processes })

abbrev pub finally : {A : Type 0} → (ComponentManager → ComponentManager) → Work A → Work A
finally f t m = let (r, m') = t m in (r, f m')

module _ (c : Settings) (casefold : Text → Text) (o : Outside) (i : ℕ) where
  -- The body of the `try` of `download`.
  unfoldable pub download_body : Component → Work (Unit {0})
  download_body component = do
    reporting i 20 (text "connecting") (text "Connecting to the configured database registry")
    answer_job o.workspace
    suspend_job o spawn_wait
    answer_job o.spawn
    doing (add_process i)
    lines ← consume casefold o i 0 o.output []
    suspend_job o exit_wait
    code ← wait_process c i o.exit
    check_download i code lines
    reporting i 90 (text "verifying") (text "Verifying downloaded metadata")
    info ← inspect o component
    check_installed info
    doing (
        complete_component i (dumps ascii_style (download_result o info))
          (text "Database is up to date"))

  -- `download(job_id, component)`
  unfoldable pub download : Component → Work (Unit {0})
  unfolding give_back
  download component = do
    reporting i 12 (text "waiting_for_scans")
        (text "Waiting for active scans to release the database")
    take_write_lock o
    finally (give_back i) (download_body component)
