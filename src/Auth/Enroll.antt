-- ===== src/Auth/Enroll.antt =====
-- `activate` and `reenroll_2fa` of auth.py: a code that an administrator has handed out starts the
-- enrollment of an authenticator.
use layerscope.Base.{ℕ, Bool, false, not, ◌&&◌, Option, none, some, ltb, if◌then◌else◌}
use layerscope.Base.Json.{end}
use layerscope.Base.Text.{Text, text, same, strip, nonempty}
use layerscope.Config.{Settings}
use layerscope.Models.{Time, minutes, User, activation, mfa_reenroll}
use layerscope.Auth.{
  AuthDb, Request, Draw, Crypto, ok, http, Handled, on_ok, put_user, first, audit, detail,
  drop_codes,
}
use layerscope.Auth.Accounts.{validate_password}
use layerscope.Auth.Login.{Credentials, by_name}
use layerscope.Auth.Sessions.{create_session, revoke_credentials}

-- `stored and expires_at and expires_at > now and compare_digest(stored, supplied)`
abbrev pub code_valid : Time → Option Text → Option Time → Text → Bool
code_valid now none expires supplied = false
code_valid now (some stored) none supplied = false
code_valid now (some stored) (some expires) supplied =
    nonempty stored && ltb now expires && same stored supplied

abbrev pub denied : Text → Text → Text → Request → Option ℕ → AuthDb → Handled Text
denied action message username r user_id db = (
  audit action (text "denied") r user_id (detail (text "username") username) db,
  http 401 message,
)

abbrev pub start_activation : Crypto → Draw → Text → User → User
start_activation k d password u = record u {
  password_hash = k.hash_password password;
  totp_secret_encrypted = some (k.encrypt_secret d.secret);
  totp_enabled = false;
  last_totp_step = none;
  activation_token_hash = none;
  activation_expires_at = none;
  failed_login_count = 0;
  locked_until = none;
}

abbrev pub refused_activation : Text → Request → Option ℕ → AuthDb → Handled Text
refused_activation = denied (text "user_activation") (text "Invalid or expired activation code")

abbrev pub activate_found :
    (Text → Text)
    → Settings
    → Crypto
    → Request
    → Draw
    → Text
    → Text
    → Text
    → Option User
    → AuthDb
    → Handled Text
activate_found casefold c k r d username password code none db =
    refused_activation username r none db
activate_found casefold c k r d username password code (some u) db =
    if not u.active
      && code_valid r.now u.activation_token_hash u.activation_expires_at
          (k.token_hash (strip code))
    then on_ok (validate_password casefold password username) db (λ _. (
      audit (text "user_activation") (text "pending_mfa") r (some u.id) end (
          create_session c k r d u.id activation (minutes 10) (
            put_user r.now u.id (start_activation k d password)
              (drop_codes u.id (revoke_credentials u.id r.now db)))),
      ok d.secret,
    ))
    else refused_activation username r (some u.id) db

-- `activate`
unfoldable pub activate :
    (Text → Text) → Settings → Crypto → Request → Draw → Credentials → Text → AuthDb → Handled Text
activate casefold c k r d body code db =
    let username = casefold (strip body.username) in
    activate_found casefold c k r d username body.password code
      (first (λ (u : User). same u.username username) db.users) db

abbrev pub start_reenrollment : Crypto → Draw → User → User
start_reenrollment k d u = record u {
  totp_secret_encrypted = some (k.encrypt_secret d.secret);
  totp_enabled = false;
  last_totp_step = none;
  mfa_reset_token_hash = none;
  mfa_reset_expires_at = none;
  failed_login_count = 0;
  locked_until = none;
}

abbrev pub refused_reenrollment : Text → Request → Option ℕ → AuthDb → Handled Text
refused_reenrollment =
    denied (text "user_2fa_reenrollment") (text "Invalid credentials or expired 2FA reissue code")

abbrev pub reenroll_found :
    Settings → Crypto → Request → Draw → Text → Text → Text → Option User → AuthDb → Handled Text
reenroll_found c k r d username password code none db = refused_reenrollment username r none db
reenroll_found c k r d username password code (some u) db =
    if k.verify_password u.password_hash password
      && code_valid r.now u.mfa_reset_token_hash u.mfa_reset_expires_at (k.token_hash (strip code))
    then (
      audit (text "user_2fa_reenrollment") (text "pending_mfa") r (some u.id) end (
          create_session c k r d u.id mfa_reenroll (minutes 10) (
            put_user r.now u.id (start_reenrollment k d)
              (drop_codes u.id (revoke_credentials u.id r.now db)))),
      ok d.secret,
    )
    else refused_reenrollment username r (some u.id) db

-- `reenroll_2fa`
unfoldable pub reenroll_2fa :
    (Text → Text) → Settings → Crypto → Request → Draw → Credentials → Text → AuthDb → Handled Text
reenroll_2fa casefold c k r d body code db =
    let username = casefold (strip body.username) in
    reenroll_found c k r d username body.password code (first (by_name username) db.users) db
