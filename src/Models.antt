-- ===== src/Models.antt =====
-- backend/app/models.py: the rows of the database's tables. Times are instants, counted in
-- microseconds from a fixed epoch; a closed set of strings is a data type.
pub use layerscope.Base.Text.{Text}
use layerscope.Base.{ℕ, ◌*◌, Bool, true, false, Option}

-- A `datetime`, in microseconds, and `timedelta(seconds=n)`.
abbrev pub Time : Type 0
Time = ℕ

abbrev pub seconds : ℕ → Time
seconds n = n * 1000000

abbrev pub minutes : ℕ → Time
minutes n = seconds (n * 60)

abbrev pub hours : ℕ → Time
hours n = minutes (n * 60)

pub record ImageArchive : Type 0 where
  pub id : ℕ
  pub path : Text
  pub name : Text
  pub size : ℕ
  pub modified_at : Time
  pub discovered_at : Time
  pub hidden : Bool
  pub removed_at : Option Time

-- The values that the program writes to `Scan.status` and to the other job tables.
pub data Status : Type 0 where
  queued running completed failed cancelled : Status

pub Status-discrete : Discrete Status
Status-discrete = hlevel

-- `status in TERMINAL_STATUSES`
abbrev pub is_terminal : Status → Bool
is_terminal queued = false
is_terminal running = false
is_terminal completed = true
is_terminal failed = true
is_terminal cancelled = true

-- `status in {"queued", "running"}`
abbrev pub is_active : Status → Bool
is_active queued = true
is_active running = true
is_active completed = false
is_active failed = false
is_active cancelled = false

abbrev pub is_queued : Status → Bool
is_queued queued = true
is_queued running = false
is_queued completed = false
is_queued failed = false
is_queued cancelled = false

abbrev pub is_running : Status → Bool
is_running queued = false
is_running running = true
is_running completed = false
is_running failed = false
is_running cancelled = false

abbrev pub is_cancelled : Status → Bool
is_cancelled queued = false
is_cancelled running = false
is_cancelled completed = false
is_cancelled failed = false
is_cancelled cancelled = true

abbrev pub is_completed : Status → Bool
is_completed queued = false
is_completed running = false
is_completed completed = true
is_completed failed = false
is_completed cancelled = false

pub record Scan : Type 0 where
  pub id : ℕ
  pub image_id : ℕ
  pub status : Status
  pub progress : ℕ
  pub stage : Text
  pub message : Text
  pub queued_at : Time
  pub started_at : Option Time
  pub finished_at : Option Time
  pub updated_at : Time
  pub raw_json_path : Option Text
  pub error : Option Text
  pub coverage_warning : Option Text

pub record Finding : Type 0 where
  pub scan_id : ℕ
  pub target : Text
  pub vulnerability_id : Text
  pub package_name : Text
  pub installed_version : Text
  pub fixed_version : Text
  pub severity : Text
  pub title : Text
  pub description : Text
  pub primary_url : Text

pub record Package : Type 0 where
  pub scan_id : ℕ
  pub target : Text
  pub name : Text
  pub version : Text
  pub identifier : Text
  pub licenses : Text

pub data Component : Type 0 where
  vulnerability_db java_db : Component

pub data Action : Type 0 where
  check update : Action

pub record MaintenanceJob : Type 0 where
  pub id : ℕ
  pub component : Component
  pub action : Action
  pub status : Status
  pub progress : ℕ
  pub stage : Text
  pub message : Text
  pub result_json : Text
  pub error : Option Text
  pub queued_at : Time
  pub started_at : Option Time
  pub finished_at : Option Time
  pub updated_at : Time

pub data Role : Type 0 where
  viewer operator admin : Role

pub record User : Type 0 where
  pub id : ℕ
  pub username : Text
  pub display_name : Text
  pub password_hash : Text
  pub role : Role
  pub active : Bool
  pub activation_token_hash : Option Text
  pub activation_expires_at : Option Time
  pub mfa_reset_token_hash : Option Text
  pub mfa_reset_expires_at : Option Time
  pub totp_secret_encrypted : Option Text
  pub totp_enabled : Bool
  pub last_totp_step : Option ℕ
  pub failed_login_count : ℕ
  pub locked_until : Option Time
  pub created_at : Time
  pub updated_at : Time

pub data AuthLevel : Type 0 where
  password mfa_setup activation mfa_reenroll full : AuthLevel

pub record AuthSession : Type 0 where
  pub id : ℕ
  pub token_hash : Text
  pub user_id : ℕ
  pub csrf_token : Text
  pub auth_level : AuthLevel
  pub failed_attempts : ℕ
  pub created_at : Time
  pub last_seen_at : Time
  pub expires_at : Time
  pub revoked_at : Option Time
  pub ip_address : Text
  pub user_agent : Text

pub record ApiToken : Type 0 where
  pub id : ℕ
  pub user_id : ℕ
  pub name : Text
  pub token_hash : Text
  pub token_prefix : Text
  pub created_at : Time
  pub expires_at : Time
  pub last_used_at : Option Time
  pub revoked_at : Option Time

pub record RecoveryCode : Type 0 where
  pub id : ℕ
  pub user_id : ℕ
  pub code_hash : Text
  pub created_at : Time
  pub used_at : Option Time

pub record AuditEvent : Type 0 where
  pub user_id : Option ℕ
  pub action : Text
  pub outcome : Text
  pub ip_address : Text
  pub details : Text
  pub created_at : Time
