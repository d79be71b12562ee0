-- ===== src/Tests/Scans.antt =====
-- Runs of scans.
use mathlib.Core.Option
use layerscope.Base.{
  ℕ, or_else, ◌+◌, ◌≤◌, ◌≡◌, refl, inl, Bool, true, false, List, [], ◌∷◌, Option, none, some, any,
  all, length, select, ◌==◌, arith,
}
use layerscope.Base.Json.{get_key, find}
use layerscope.Base.Text.{text, same, one_of}
use layerscope.Models.{Scan, Time, Package, Finding}
use layerscope.Scanner.{ScanManager, Process, get_scan, Event, component_job}
use layerscope.Scanner.Jobs.{cancelled_scan, cancel, terminate, Patch}
use layerscope.Scanner.Outside.{
  Outside, Await, lock_wait, exit_wait, spawn_wait, stop_wait, line_wait,
}
use layerscope.Scanner.Run.{run_scan}
use layerscope.Scanner.Run.Held.{Spares, cancel-Spares, ended, held}
use layerscope.Scanner.Run.Settles.{run_scan_settles, run_scan_resumes, resumable}
use layerscope.Scanner.Normalize.Rows.{normalize_sound, sound_package, sound_finding}
use layerscope.Scanner.Run.Cancelled.{cancelled_never_completes}
use layerscope.Scanner.Run.Dying.{undone}
use layerscope.Scanner.Run.Released.{run_scan_releases}
use layerscope.Scanner.Delivery.{AllReceive, is_full, Bounded, waiting, publish_conserves}
use layerscope.Scanner.Progress.{update_job_bounds, FitsOr}
use layerscope.Scanner.Insert.{insert_models-append}
use layerscope.Scanner.Rows.{get-cancel, unless_terminal}
use layerscope.Base.Table
use layerscope.Locks.{init}
use layerscope.Scanner.Claim.{
  claim, take_read_lock, prepare, own_workspace, own_process, launch, progress_patch,
}
use layerscope.Scanner.Results.{
  gone, insert_models, finish_wait, check_exit, replace_results, save, complete,
}
use layerscope.Scanner.Finish.{release, settle, on_interrupt, pause, pause_found}
use layerscope.Scanner.Run.{body, read_output, read_results, load_payload, rows_of, store_rows}
use layerscope.Scanner.Outside.{suspend, answer}
use layerscope.Scanner.Jobs.{update_job, enqueue}
use layerscope.Scanner.Events.{publish, publish_job, deliver}
use layerscope.Scanner.Normalize.{
  normalize, normalize_results, package_rows, finding_rows, package_row, finding_row, sequence,
  dicts, iterable, package_identifier, package_licenses, normalized_text, known_severity,
}
use layerscope.Scanner.Task.{◌>>=◌, pure, stop, on_manager}
use layerscope.Tests.Samples.{
  same_text, no_url, sample_settings, sample_manager, sample_outside, sample_scan, sample_job,
  sample_report,
}

abbrev idle : Await → ScanManager → ScanManager
idle a m = m

idle-Spares : (a : Await) → Spares 1 (idle a)
idle-Spares a = record { outcome = λ m. inl refl }

abbrev never : Await → Bool
never a = false

-- The worker is cancelled while Trivy runs, and not again.
abbrev at_exit : Await → Bool
at_exit exit_wait = true
at_exit lock_wait = false
at_exit spawn_wait = false
at_exit stop_wait = false
at_exit (line_wait n) = false

abbrev cancels : Await → ScanManager → ScanManager
cancels a m = (cancel 1 m).0

-- `run_scan` on the scan of the samples.
abbrev run : (Await → Bool) → (Await → ScanManager → ScanManager) → Bool → ScanManager × Bool
run interrupts meanwhile stopping =
    run_scan sample_settings same_text same_text no_url (sample_outside interrupts meanwhile) 1 0
      (sample_manager stopping)

run_finishes : (run never idle false).1 ≡ false
unfolding run_scan body claim take_read_lock prepare own_workspace own_process launch finish_wait
    check_exit replace_results save complete release settle read_output read_results load_payload
    rows_of store_rows suspend answer update_job publish publish_job deliver normalize
    normalize_results ◌>>=◌ pure stop on_manager Table.get Table.modify init get_key
run_finishes = refl

run_interrupted : (run at_exit idle true).1 ≡ true
unfolding run_scan body claim take_read_lock prepare own_workspace own_process launch finish_wait
    check_exit replace_results save complete release settle read_output read_results load_payload
    rows_of store_rows suspend answer update_job publish publish_job deliver normalize
    normalize_results ◌>>=◌ pure stop on_manager Table.get Table.modify init get_key on_interrupt
    enqueue pause pause_found terminate
run_interrupted = refl

run_stopping : (run at_exit idle true).0.stopping ≡ true
unfolding run_scan body claim take_read_lock prepare own_workspace own_process launch finish_wait
    check_exit replace_results save complete release settle read_output read_results load_payload
    rows_of store_rows suspend answer update_job publish publish_job deliver normalize
    normalize_results ◌>>=◌ pure stop on_manager Table.get Table.modify init get_key on_interrupt
    enqueue pause pause_found terminate
run_stopping = refl

run_scan_settles_example : ended (get_scan (run never idle false).0 1) ≡ true
unfolding Table.get
run_scan_settles_example =
    run_scan_settles sample_settings same_text same_text no_url (sample_outside never idle) 1 0
      (sample_manager false) idle-Spares refl run_finishes

run_scan_resumes_example : resumable (get_scan (run at_exit idle true).0 1) ≡ true
unfolding Table.get
run_scan_resumes_example =
    run_scan_resumes sample_settings same_text same_text no_url (sample_outside at_exit idle) 1 0
      (sample_manager true) idle-Spares refl refl run_interrupted run_stopping

run_scan_releases_example :
    ((run never idle false).0.access.readers ≡ 0)
    × (any (λ (p : Process). p.scan_id == 1) (run never idle false).0.processes ≡ false)
unfolding init
run_scan_releases_example =
    run_scan_releases sample_settings same_text same_text no_url (sample_outside never idle) 1 0
      (sample_manager false) (λ a m. refl)

cancelled-gone :
    (o : Option Scan) (t : Time)
    → held o ≡ true
    → gone (Option.map (unless_terminal (cancelled_scan t)) o) ≡ true
cancelled-gone none t h = refl
cancelled-gone (some s) t h = ground arith

cancels-gone :
    (m : ScanManager) → held (get_scan m 1) ≡ true → gone (get_scan (cancels lock_wait m) 1) ≡ true
cancels-gone m h = rw (get-cancel 1 1 m) (cancelled-gone (get_scan m 1) m.clock h)

-- Trivy writes one line, and the scan is cancelled while it is awaited.
abbrev one_line : Outside
one_line = record (sample_outside never cancels) { output = (true, b'x' ∷ []) ∷ [] }

cancelled_never_completes_example :
    undone (
      get_scan
        (run_scan sample_settings same_text same_text no_url one_line 1 0 (sample_manager false)).0
        1)
    ≡ true
unfolding Table.get
cancelled_never_completes_example =
    cancelled_never_completes sample_settings same_text same_text no_url one_line 1 0
      (sample_manager false) (λ a. cancel-Spares 1 1) refl (line_wait 0) refl cancels-gone

sample_event : Event
sample_event = component_job sample_job

publish_conserves_example :
    Bounded (publish sample_event (sample_manager false)).subscribers
    × (length (publish sample_event (sample_manager false)).subscribers ≡ 2)
    × AllReceive sample_event
        (sample_manager false).subscribers
        (publish sample_event (sample_manager false)).subscribers
    × ((publish sample_event (sample_manager false)).dropped_events
        ≡ length (select is_full (sample_manager false).subscribers))
    × (waiting (publish sample_event (sample_manager false)).subscribers
          + (publish sample_event (sample_manager false)).dropped_events
        ≡ 2)
publish_conserves_example =
    publish_conserves sample_event (sample_manager false) (omega arith, (omega arith, tt))

abbrev sample_patch : Patch
sample_patch = progress_patch 250 (b's' ∷ []) (b'm' ∷ [])

update_job_bounds_example :
    (s' : Scan) × (get_scan (update_job 1 sample_patch (sample_manager false)).0 1 ≡ some s')
    × (0 ≤ s'.progress)
    × (s'.progress ≤ 100)
    × (false ≡ false → 100 ≤ s'.progress)
    × (length s'.stage ≤ 40)
    × (length s'.message ≤ 500)
    × (false ≡ false → FitsOr 4000 none s'.error)
    × (false ≡ true → s' ≡ sample_scan)
    × ((update_job 1 sample_patch (sample_manager false)).1 ≡ true)
unfolding Table.get
update_job_bounds_example = update_job_bounds 1 sample_patch (sample_manager false) sample_scan refl

insert_models-append_example : insert_models {A = ℕ} (1 ∷ 2 ∷ []) (3 ∷ 4 ∷ []) ≡ 1 ∷ 2 ∷ 3 ∷ 4 ∷ []
insert_models-append_example = insert_models-append (1 ∷ 2 ∷ []) (3 ∷ 4 ∷ [])

-- The rows of the sample report.
abbrev rows : List Package × List Finding
rows = or_else (normalize same_text no_url sample_report 1) ([], [])

rows_found : normalize same_text no_url sample_report 1 ≡ some (rows.0, rows.1)
unfolding normalize normalize_results package_rows finding_rows package_row finding_row get_key find
    same text sequence dicts iterable package_identifier package_licenses normalized_text
    known_severity one_of
rows_found = refl

normalize_sound_example :
    (all (sound_package 1) rows.0 ≡ true) × (all (sound_finding 1) rows.1 ≡ true)
normalize_sound_example = normalize_sound same_text no_url sample_report 1 rows.0 rows.1 rows_found
