-- ===== src/Config.antt =====
-- backend/app/config.py: the settings that the modelled parts read, with the ranges that their
-- fields declare. Texts that the program never takes apart stay whole; a comma-separated list is
-- the list that its property returns.
use layerscope.Base.{ℕ, Bool, List, [], ◌∷◌, ◌++◌, ◌≤◌}
use layerscope.Base.Text.{Text}

pub record Settings : Type 0 where
  pub raw_results_dir : Text
  pub upload_dir : Text
  pub roots : List Text
  pub scan_concurrency : ℕ
  pub max_pending_scans : ℕ
  pub trivy_binary : Text
  pub trivy_cache_dir : Text
  pub db_repositories : List Text
  pub java_db_repositories : List Text
  pub trivy_timeout_seconds : ℕ
  pub max_raw_result_bytes : ℕ
  pub max_upload_bytes : ℕ
  pub max_upload_request_bytes : ℕ
  pub max_upload_files : ℕ
  pub storage_reserve_bytes : ℕ
  pub max_sse_clients : ℕ
  pub sse_queue_size : ℕ
  pub auth_rate_limit_attempts : ℕ
  pub auth_rate_limit_window_seconds : ℕ
  pub auth_idle_minutes : ℕ
  pub auth_absolute_hours : ℕ
  pub auth_login_max_attempts : ℕ
  pub auth_lockout_minutes : ℕ
  pub auth_activation_hours : ℕ
  pub auth_max_sessions_per_user : ℕ
  pub auth_max_api_tokens_per_user : ℕ
  pub auth_bind_user_agent : Bool

-- The directories whose paths `sanitize_untrusted_text` hides; the settings hold resolved paths.
abbrev pub managed_roots : Settings → List Text
managed_roots c = c.roots ++ (c.upload_dir ∷ c.raw_results_dir ∷ [])

-- `Field(ge=…, le=…)`: the settings that start the program satisfy these.
pub record IsValid (s : Settings) : Type 0 where
  pub concurrency : (1 ≤ s.scan_concurrency) × (s.scan_concurrency ≤ 16)
  pub pending : (1 ≤ s.max_pending_scans) × (s.max_pending_scans ≤ 10000)
  pub timeout : (60 ≤ s.trivy_timeout_seconds) × (s.trivy_timeout_seconds ≤ 86400)
  pub raw_result : (1048576 ≤ s.max_raw_result_bytes) × (s.max_raw_result_bytes ≤ 4294967296)
  pub upload : (1048576 ≤ s.max_upload_bytes) × (1048576 ≤ s.max_upload_request_bytes)
  pub files : (1 ≤ s.max_upload_files) × (s.max_upload_files ≤ 500)
  pub reserve : 67108864 ≤ s.storage_reserve_bytes
  pub clients : (1 ≤ s.max_sse_clients) × (s.max_sse_clients ≤ 10000)
  pub event_queue : (10 ≤ s.sse_queue_size) × (s.sse_queue_size ≤ 10000)
  pub rate : (5 ≤ s.auth_rate_limit_attempts) × (s.auth_rate_limit_attempts ≤ 10000)
  pub window : (10 ≤ s.auth_rate_limit_window_seconds) × (s.auth_rate_limit_window_seconds ≤ 3600)
  pub idle : (5 ≤ s.auth_idle_minutes) × (s.auth_idle_minutes ≤ 1440)
  pub absolute : (1 ≤ s.auth_absolute_hours) × (s.auth_absolute_hours ≤ 168)
  pub attempts : (3 ≤ s.auth_login_max_attempts) × (s.auth_login_max_attempts ≤ 20)
  pub lockout : (1 ≤ s.auth_lockout_minutes) × (s.auth_lockout_minutes ≤ 1440)
  pub activation : (1 ≤ s.auth_activation_hours) × (s.auth_activation_hours ≤ 168)
  pub sessions : (1 ≤ s.auth_max_sessions_per_user) × (s.auth_max_sessions_per_user ≤ 50)
  pub tokens : (1 ≤ s.auth_max_api_tokens_per_user) × (s.auth_max_api_tokens_per_user ≤ 100)
