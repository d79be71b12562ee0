-- ===== src/Scanner.antt =====
-- backend/app/scanner.py, the state of `ScanManager` with the rows and files that it works on.
-- One event loop runs all its methods: what a method does between two suspensions is one function
-- here, and `clock` is what `datetime.now` returns in it.
pub mod Events
pub mod Jobs
pub mod Normalize
pub mod Command
pub mod Output
pub mod Task
pub mod Outside
pub mod Claim
pub mod Results
pub mod Finish
pub mod Run
pub mod Worker
pub mod Rows
pub mod Delivery
pub mod Progress
pub mod Insert
use layerscope.Base.{ℕ, Bool, Option, List}
use layerscope.Base.Table
use layerscope.Base.Int.{ℤ}
use layerscope.Models.{Time, Text, Status, Scan, Finding, Package, ImageArchive, MaintenanceJob}
use layerscope.Locks.{AsyncReadWriteLock}

-- `{"type": "job", …}`
pub record JobEvent : Type 0 where
  pub scan_id : ℕ
  pub image_id : ℕ
  pub status : Status
  pub progress : ℕ
  pub stage : Text
  pub message : Text
  pub error : Option Text
  pub coverage_warning : Option Text

pub data Event : Type 0 where
  job : JobEvent → Event
  component_job : MaintenanceJob → Event

-- `asyncio.Queue(maxsize)` of one live-event client.
pub record Subscriber : Type 0 where
  pub maxsize : ℕ
  pub events : List Event

-- `asyncio.subprocess.Process`: `returncode` is absent while it runs.
pub record Process : Type 0 where
  pub scan_id : ℕ
  pub returncode : Option ℤ
  pub terminated : Bool

pub record ScanManager : Type 0 where
  pub clock : Time
  pub images : List ImageArchive
  pub scans : List Scan
  pub findings : List Finding
  pub packages : List Package
  pub raw_results : List ℕ
  pub workspaces : List ℕ
  pub access : AsyncReadWriteLock
  pub queue : List ℕ
  pub queued_ids : List ℕ
  pub active_ids : List ℕ
  pub processes : List Process
  pub subscribers : List Subscriber
  pub dropped_events : ℕ
  pub rejected_sse_clients : ℕ
  pub stopping : Bool

-- `db.get(Scan, scan_id)`
abbrev pub scan_key : Scan → ℕ
scan_key s = s.id

abbrev pub get_scan : ScanManager → ℕ → Option Scan
get_scan m i = Table.get scan_key i m.scans

abbrev pub put_scan : ScanManager → ℕ → (Scan → Scan) → ScanManager
put_scan m i f = record m { scans = Table.modify scan_key i f m.scans }
