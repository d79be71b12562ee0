-- ===== src/Auth/Verify.antt =====
-- `totp_verify` of auth.py: the second factor completes a sign-in or an enrollment.
use layerscope.Base.{
  ℕ, suc, Bool, true, false, not, ◌&&◌, ◌||◌, List, [], ◌∷◌, ◌++◌, Option, none, some, ◌==◌, leb,
  is_some, if◌then◌else◌,
}
use layerscope.Base.Json.{boolean, end, field}
use layerscope.Base.Table
use layerscope.Base.Text.{Text, text, same, strip}
use layerscope.Config.{Settings}
use layerscope.Models.{
  Time, hours, User, AuthSession, AuthLevel, password, mfa_setup, activation, mfa_reenroll, full,
  RecoveryCode,
}
use layerscope.Auth.{
  AuthDb, Request, Draw, Crypto, ok, http, Handled, refuse, put_user, put_session, first, audit,
  code_key,
}
use layerscope.Auth.Sessions.{get_session, create_session, csrf_valid, revoke}
use layerscope.Auth.Totp.{verify_totp}

-- `session.auth_level in {"mfa_setup", "activation", "mfa_reenroll"}`
abbrev pub is_enrollment : AuthLevel → Bool
is_enrollment password = false
is_enrollment mfa_setup = true
is_enrollment activation = true
is_enrollment mfa_reenroll = true
is_enrollment full = false

abbrev pub is_password : AuthLevel → Bool
is_password password = true
is_password mfa_setup = false
is_password activation = false
is_password mfa_reenroll = false
is_password full = false

abbrev pub is_challenge : AuthLevel → Bool
is_challenge level = is_password level || is_enrollment level

abbrev pub usable_code : ℕ → Text → RecoveryCode → Bool
usable_code user_id hash c =
    c.user_id == user_id && same c.code_hash hash && not (is_some c.used_at)

abbrev pub find_recovery : Crypto → User → Text → AuthDb → Option RecoveryCode
find_recovery k u code db = first (usable_code u.id (k.recovery_hash code)) db.recovery_codes

abbrev pub recovery_for : Crypto → AuthLevel → User → Text → AuthDb → Option ℕ → Option RecoveryCode
recovery_for k level u code db (some step) = none
recovery_for k level u code db none = if is_password level then find_recovery k u code db else none

abbrev pub use_step : Time → ℕ → Option ℕ → AuthDb → AuthDb
use_step now i none db = db
use_step now i (some step) db = put_user now i (λ u. record u { last_totp_step = some step }) db

abbrev pub use_code : Time → Option RecoveryCode → AuthDb → AuthDb
use_code now none db = db
use_code now (some c) db = record db {
  recovery_codes =
      Table.modify code_key c.id (λ x. record x { used_at = some now }) db.recovery_codes;
}

-- The new rows: the database gives them one key after another.
abbrev pub new_codes : Crypto → Time → ℕ → ℕ → List Text → List RecoveryCode
new_codes k now i key [] = []
new_codes k now i key (code ∷ codes) =
    record {
      id = key;
      user_id = i;
      code_hash = k.recovery_hash code;
      created_at = now;
      used_at = none;
    }
    ∷ new_codes k now i (suc key) codes

abbrev pub enabled : User → User
enabled u = record u { active = true; totp_enabled = true }

abbrev pub enrolled : Crypto → Request → Draw → ℕ → AuthDb → AuthDb
enrolled k r d i db = record (put_user r.now i enabled db) {
  recovery_codes = new_codes k r.now i d.new_id d.codes ++ db.recovery_codes;
}

abbrev pub enroll : Crypto → Request → Draw → ℕ → AuthLevel → AuthDb → AuthDb
enroll k r d i level db = if is_enrollment level then enrolled k r d i db else db

abbrev pub completed_action : AuthLevel → Text
completed_action password = text "login_complete"
completed_action mfa_setup = text "initial_setup_complete"
completed_action activation = text "user_activation_complete"
completed_action mfa_reenroll = text "mfa_reenrollment_complete"
completed_action full = text "login_complete"

abbrev pub fail_attempt : Time → AuthSession → AuthSession
fail_attempt now s =
    if leb 5 (suc s.failed_attempts)
    then record s { failed_attempts = suc s.failed_attempts; revoked_at = some now }
    else record s { failed_attempts = suc s.failed_attempts }

abbrev pub deny_code : Request → AuthSession → User → AuthDb → Handled Text
deny_code r s u db = (
  audit (text "totp_verify") (text "denied") r (some u.id) end
      (put_session s.id (fail_attempt r.now) db),
  http 401 (text "Invalid or already-used authentication code"),
)

abbrev pub grant :
    Settings
    → Crypto
    → Request
    → Draw
    → AuthSession
    → User
    → Option ℕ
    → Option RecoveryCode
    → AuthDb
    → Handled Text
grant c k r d s u step recovery db = (
  audit (completed_action s.auth_level) (text "success") r (some u.id)
      (field (text "recovery_code_used") (boolean (is_some recovery)) end)
      (create_session c k r d u.id full (hours c.auth_absolute_hours) (
        put_session s.id (revoke r.now) (
          enroll k r d u.id s.auth_level (use_code r.now recovery (use_step r.now u.id step db))))),
  ok d.csrf,
)

abbrev pub decide :
    Settings
    → Crypto
    → Request
    → Draw
    → AuthSession
    → User
    → Option ℕ
    → Option RecoveryCode
    → AuthDb
    → Handled Text
decide c k r d s u none none db = deny_code r s u db
decide c k r d s u none (some code) db = grant c k r d s u none (some code) db
decide c k r d s u (some step) recovery db = grant c k r d s u (some step) recovery db

abbrev pub verify_found :
    Settings
    → Crypto
    → Request
    → Draw
    → Text
    → Text
    → Option (AuthSession × User)
    → AuthDb
    → Handled Text
verify_found c k r d code csrf none db = refuse 401 (text "Authentication challenge expired") db
verify_found c k r d code csrf (some (s, u)) db =
    if not (is_challenge s.auth_level) || not (csrf_valid s csrf)
    then refuse 403 (text "Authentication challenge is invalid") db
    else let step = verify_totp k r.now u (strip code) in
      decide c k r d s u step (recovery_for k s.auth_level u code db step) db

-- `totp_verify`
unfoldable pub totp_verify :
    Settings → Crypto → Request → Draw → Text → Text → AuthDb → Handled Text
totp_verify c k r d code csrf db =
    let (db1, result) = get_session c k r none db in verify_found c k r d code csrf result db1
