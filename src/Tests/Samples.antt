-- ===== src/Tests/Samples.antt =====
-- The data of the runs.
use layerscope.Base.{ℕ, Bool, true, false, [], ◌∷◌, none, some}
use layerscope.Base.Int.{pos}
use layerscope.Base.Json.{Json, object, Fields, end, field, Items, nil, cons, string, array}
use layerscope.Base.Text.{Text, text}
use layerscope.Config.{Settings}
use layerscope.Locks.{init}
use layerscope.Models.{
  ImageArchive, Scan, queued, User, Role, viewer, admin, AuthSession, full, ApiToken,
  MaintenanceJob, java_db, check,
}
use layerscope.Auth.{AuthDb, Request, Draw, Crypto}
use layerscope.Scanner.{ScanManager, Subscriber}
use layerscope.Scanner.Outside.{Outside, Await, gives, exits, runtime_error}

abbrev pub same_text : Text → Text
same_text t = t

abbrev pub no_url : Json → Text
no_url j = []

abbrev pub sample_settings : Settings
sample_settings = record {
  raw_results_dir = [];
  upload_dir = [];
  roots = [];
  scan_concurrency = 2;
  max_pending_scans = 100;
  trivy_binary = [];
  trivy_cache_dir = [];
  db_repositories = [];
  java_db_repositories = [];
  trivy_timeout_seconds = 900;
  max_raw_result_bytes = 1048576;
  max_upload_bytes = 1048576;
  max_upload_request_bytes = 1048576;
  max_upload_files = 5;
  storage_reserve_bytes = 67108864;
  max_sse_clients = 10;
  sse_queue_size = 10;
  auth_rate_limit_attempts = 30;
  auth_rate_limit_window_seconds = 60;
  auth_idle_minutes = 30;
  auth_absolute_hours = 12;
  auth_login_max_attempts = 5;
  auth_lockout_minutes = 15;
  auth_activation_hours = 24;
  auth_max_sessions_per_user = 2;
  auth_max_api_tokens_per_user = 2;
  auth_bind_user_agent = true;
}

-- A token, and a code, character by character.
abbrev pub sample_raw : Text
sample_raw =
    b'l' ∷ b's' ∷ b'p' ∷ b'_' ∷ b'a' ∷ b'a' ∷ b'a' ∷ b'a' ∷ b'a' ∷ b'a' ∷ b'a' ∷ b'a' ∷ b'a' ∷ b'a'
    ∷ b'a' ∷ b'a' ∷ b'a' ∷ b'a' ∷ b'a' ∷ b'a' ∷ b'a' ∷ b'a' ∷ b'a' ∷ b'a' ∷ b'a' ∷ b'a' ∷ b'a'
    ∷ b'a' ∷ b'a' ∷ b'a' ∷ b'a' ∷ b'a' ∷ b'a' ∷ b'a' ∷ b'a' ∷ b'a' ∷ b'a' ∷ b'a' ∷ b'a' ∷ b'a'
    ∷ b'a' ∷ b'a' ∷ b'a' ∷ b'a' ∷ b'a' ∷ b'a' ∷ b'a' ∷ []

abbrev pub sample_code : Text
sample_code = b'1' ∷ b'2' ∷ b'3' ∷ b'4' ∷ b'5' ∷ b'6' ∷ []

abbrev pub sample_image : ImageArchive
sample_image = record {
  id = 7;
  path = [];
  name = [];
  size = 10;
  modified_at = 0;
  discovered_at = 0;
  hidden = false;
  removed_at = none;
}

abbrev pub sample_scan : Scan
sample_scan = record {
  id = 1;
  image_id = 7;
  status = queued;
  progress = 0;
  stage = [];
  message = [];
  queued_at = 0;
  started_at = none;
  finished_at = none;
  updated_at = 0;
  raw_json_path = none;
  error = none;
  coverage_warning = none;
}

abbrev pub full_client : Subscriber
full_client = record { maxsize = 0; events = [] }

abbrev pub free_client : Subscriber
free_client = record { maxsize = 3; events = [] }

abbrev pub sample_manager : Bool → ScanManager
sample_manager stopping = record {
  clock = 5;
  images = sample_image ∷ [];
  scans = sample_scan ∷ [];
  findings = [];
  packages = [];
  raw_results = [];
  workspaces = [];
  access = init;
  queue = [];
  queued_ids = 1 ∷ [];
  active_ids = [];
  processes = [];
  subscribers = full_client ∷ free_client ∷ [];
  dropped_events = 0;
  rejected_sse_clients = 0;
  stopping = stopping;
}

-- Trivy answers with an empty report; the worker is cancelled where `interrupts` says.
abbrev pub sample_outside : (Await → Bool) → (Await → ScanManager → ScanManager) → Outside
sample_outside interrupts meanwhile = record {
  meanwhile = meanwhile;
  interrupts = interrupts;
  java_db_available = true;
  workspace = gives tt;
  spawn = gives tt;
  output = [];
  exit = exits (pos 0);
  raw_size = gives 10;
  payload = gives (object end);
  malformed = runtime_error [];
}

abbrev pub user : ℕ → Role → Bool → User
user i role active = record {
  id = i;
  username = b'u' ∷ i ∷ [];
  display_name = [];
  password_hash = b'p' ∷ [];
  role = role;
  active = active;
  activation_token_hash = none;
  activation_expires_at = none;
  mfa_reset_token_hash = none;
  mfa_reset_expires_at = none;
  totp_secret_encrypted = some (b's' ∷ []);
  totp_enabled = active;
  last_totp_step = some 1;
  failed_login_count = 0;
  locked_until = none;
  created_at = 0;
  updated_at = 0;
}

abbrev pub sample_session : ℕ → AuthSession
sample_session i = record {
  id = i;
  token_hash = b't' ∷ [];
  user_id = 1;
  csrf_token = b'c' ∷ [];
  auth_level = full;
  failed_attempts = 0;
  created_at = i;
  last_seen_at = 100000000;
  expires_at = 900000000;
  revoked_at = none;
  ip_address = [];
  user_agent = [];
}

abbrev pub sample_token : ApiToken
sample_token = record {
  id = 1;
  user_id = 1;
  name = [];
  token_hash = sample_raw;
  token_prefix = [];
  created_at = 0;
  expires_at = 900000000;
  last_used_at = none;
  revoked_at = none;
}

abbrev pub sample_db : AuthDb
sample_db = record {
  users = user 1 admin true ∷ user 2 viewer true ∷ [];
  sessions = sample_session 1 ∷ sample_session 2 ∷ sample_session 3 ∷ [];
  api_tokens = sample_token ∷ [];
  recovery_codes = [];
  audit_events = [];
}

abbrev pub sample_request : Request
sample_request = record {
  now = 120000000;
  method = [];
  path = [];
  ip_address = [];
  user_agent = [];
  cookie = b't' ∷ [];
  authorization = [];
  csrf_header = [];
  request_id = [];
}

abbrev pub sample_draw : Draw
sample_draw = record {
  raw = b'r' ∷ [];
  csrf = b'c' ∷ [];
  secret = b's' ∷ [];
  codes = [];
  new_id = 9;
}

-- Ciphers that change nothing; the code of every secret is 123456 at all times.
abbrev pub sample_crypto : Crypto
sample_crypto = record {
  token_hash = λ t. t;
  hash_password = λ t. t;
  verify_password = λ hash given. true;
  needs_rehash = λ t. false;
  recovery_hash = λ t. t;
  encrypt_secret = λ t. t;
  totp_at = λ secret t. sample_code;
  dummy_password_hash = [];
}

abbrev pub sample_job : MaintenanceJob
sample_job = record {
  id = 1;
  component = java_db;
  action = check;
  status = queued;
  progress = 0;
  stage = [];
  message = [];
  result_json = [];
  error = none;
  queued_at = 0;
  started_at = none;
  finished_at = none;
  updated_at = 0;
}

-- A report with one package and one finding.
abbrev pub one : Fields → Items
one fs = cons (object fs) nil

abbrev pub sample_report : Json
sample_report = object (
    field (text "Results")
      (array (
        one (
          field (text "Target") (string (b'x' ∷ [])) (
            field (text "Packages") (array (one (field (text "Name") (string (b'p' ∷ [])) end))) (
              field (text "Vulnerabilities")
                (array (one (field (text "VulnerabilityID") (string (b'v' ∷ [])) end))) end)))))
      end)
