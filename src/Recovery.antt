-- ===== src/Recovery.antt =====
-- backend/app/admin_recovery.py: the password of an administrator is reset from the server's
-- console, with an authenticator or recovery code.
use layerscope.Base.{
  ℕ, Bool, true, ◌&&◌, List, [], ◌∷◌, Option, none, some, take, select, is_some, if◌then◌else◌,
}
use layerscope.Base.Json.{string, boolean, object, dumps, ascii_style, Fields, end, field}
use layerscope.Base.Text.{Text, text, same, strip, nonempty}
use layerscope.Models.{Time, User, RecoveryCode}
use layerscope.Auth.{AuthDb, Crypto, Reply, ok, http, put_user, first}
use layerscope.Auth.Accounts.{normalize_username, validate_password}
use layerscope.Auth.Admins.{active_admin}
use layerscope.Auth.Sessions.{revoke_credentials}
use layerscope.Auth.Totp.{verify_totp}
use layerscope.Auth.Verify.{find_recovery, use_step, use_code}

-- AdminRecoveryError
pub data Recovered (A : Type 0) : Type 0 where
  done : A → Recovered A
  error : Text → Recovered A

abbrev pub Outcome : Type 0 → Type 0
Outcome A = AuthDb × Recovered A

abbrev pub method : Fields → Fields
method rest = field (text "method") (string (text "server_console")) rest

abbrev pub reason : Text → Fields
reason why = method (field (text "reason") (string why) end)

abbrev pub id_of : Option User → Option ℕ
id_of none = none
id_of (some u) = some u.id

-- `_audit`
unfoldable pub record_event : Time → Option User → Text → Fields → AuthDb → AuthDb
record_event now user outcome details db = record db {
  audit_events =
      record {
        user_id = id_of user;
        action = text "admin_password_recovery";
        outcome = outcome;
        ip_address = text "local-console";
        details = take 4000 (dumps ascii_style (object details));
        created_at = now;
      }
      ∷ db.audit_events;
}

abbrev pub eligible : User → Bool
eligible u = active_admin u && u.totp_enabled

abbrev pub no_account : Time → AuthDb → Outcome User
no_account now db = (
  record_event now none (text "denied") (reason (text "ineligible_account")) db,
  error (text "Recovery verification failed"),
)

abbrev pub named_admin : Time → AuthDb → Option User → Outcome User
named_admin now db none = no_account now db
named_admin now db (some u) = (db, done u)

abbrev pub find_admin : Time → AuthDb → Reply Text → Outcome User
find_admin now db (http code message) = no_account now db
find_admin now db (ok name) =
    named_admin now db (first (λ (u : User). same u.username name && eligible u) db.users)

abbrev pub only_admin : AuthDb → List User → Outcome User
only_admin db (u ∷ []) = (db, done u)
only_admin db [] =
    (db, error (text "Specify --username when there is not exactly one active administrator"))
only_admin db (u ∷ v ∷ rest) =
    (db, error (text "Specify --username when there is not exactly one active administrator"))

-- `_active_admin`; the empty text stands for `None`.
unfoldable pub active_admin_of : (Text → Text) → Time → Text → AuthDb → Outcome User
active_admin_of casefold now username db =
    if nonempty username
    then find_admin now db (normalize_username casefold username)
    else only_admin db (select eligible db.users)

abbrev pub reset_user : Crypto → Text → User → User
reset_user k new_password u = record u {
  password_hash = k.hash_password new_password;
  failed_login_count = 0;
  locked_until = none;
  activation_token_hash = none;
  activation_expires_at = none;
  mfa_reset_token_hash = none;
  mfa_reset_expires_at = none;
}

abbrev pub refuse_reset : Time → User → Text → Text → AuthDb → Outcome (User × Bool)
refuse_reset now u why message db =
    (record_event now (some u) (text "denied") (reason why) db, error message)

abbrev pub success_details : Bool → Fields
success_details used = method (
    field (text "recovery_code_used") (boolean used) (
      field (text "sessions_revoked") (boolean true)
        (field (text "api_tokens_revoked") (boolean true) end)))

abbrev pub commit_reset :
    Crypto → Time → User → Text → Option ℕ → Option RecoveryCode → AuthDb → Outcome (User × Bool)
commit_reset k now u new_password step recovery db = (
  record_event now (some u) (text "success") (success_details (is_some recovery)) (
      put_user now u.id (reset_user k new_password)
        (revoke_credentials u.id now (use_code now recovery (use_step now u.id step db)))),
  done (u, is_some recovery),
)

abbrev pub decide_reset :
    Crypto → Time → User → Text → Option ℕ → Option RecoveryCode → AuthDb → Outcome (User × Bool)
decide_reset k now u new_password none none db =
    refuse_reset now u (text "mfa_verification")
      (text "Invalid or already-used authenticator/recovery code") db
decide_reset k now u new_password (some step) recovery db =
    commit_reset k now u new_password (some step) recovery db
decide_reset k now u new_password none (some code) db =
    commit_reset k now u new_password none (some code) db

abbrev pub recovery_with : Crypto → User → Text → AuthDb → Option ℕ → Option RecoveryCode
recovery_with k u supplied db (some step) = none
recovery_with k u supplied db none =
    if nonempty supplied then find_recovery k u supplied db else none

abbrev pub check_reset :
    Crypto → Time → User → Text → Text → Reply (Unit {0}) → AuthDb → Outcome (User × Bool)
check_reset k now u new_password mfa_code (http code message) db =
    refuse_reset now u (text "password_policy") message db
check_reset k now u new_password mfa_code (ok _) db =
    if k.verify_password u.password_hash new_password
    then refuse_reset now u (text "password_reuse")
        (text "The new password must differ from the current password") db
    else let supplied = strip mfa_code in
      let step = verify_totp k now u supplied in
      decide_reset k now u new_password step (recovery_with k u supplied db step) db

abbrev pub reset_for :
    (Text → Text) → Crypto → Time → Text → Text → Outcome User → Outcome (User × Bool)
reset_for casefold k now new_password mfa_code (db, error message) = (db, error message)
reset_for casefold k now new_password mfa_code (db, done u) =
    check_reset k now u new_password mfa_code (validate_password casefold new_password u.username)
      db

-- `reset_admin_password`: the account, and whether a recovery code was used.
unfoldable pub reset_admin_password :
    (Text → Text) → Crypto → Time → Text → Text → Text → AuthDb → Outcome (User × Bool)
reset_admin_password casefold k now username new_password mfa_code db =
    reset_for casefold k now new_password mfa_code (active_admin_of casefold now username db)
