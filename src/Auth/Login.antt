-- ===== src/Auth/Login.antt =====
-- `setup`, `login` and `logout` of auth.py.
use layerscope.Base.{
  ℕ, suc, ◌+◌, Bool, false, not, ◌&&◌, List, [], ◌∷◌, Option, none, some, leb, ltb, is_some,
  or_else, select, member, if◌then◌else◌,
}
use layerscope.Base.Json.{end}
use layerscope.Base.Text.{Text, text, same, strip, nonempty}
use layerscope.Config.{Settings}
use layerscope.Models.{
  Time, minutes, User, admin, AuthSession, password, mfa_setup, ApiToken, RecoveryCode,
}
use layerscope.Auth.{
  AuthDb, Request, Draw, Crypto, ok, http, Handled, refuse, on_ok, put_user, put_session, first,
  audit, detail,
}
use layerscope.Auth.Accounts.{normalize_username, validate_password}
use layerscope.Auth.Admins.{count_active}
use layerscope.Auth.Sessions.{create_session, revoke}

pub record Credentials : Type 0 where
  pub username : Text
  pub password : Text

-- The rows of the accounts that are not active, and everything that names one.
abbrev pub pending_ids : List User → List ℕ
pending_ids [] = []
pending_ids (u ∷ t) = let rest = pending_ids t in if u.active then rest else u.id ∷ rest

unfoldable pub drop_pending : AuthDb → AuthDb
drop_pending db =
    let ids = pending_ids db.users in
    record db {
      api_tokens = select (λ (t : ApiToken). not (member t.user_id ids)) db.api_tokens;
      sessions = select (λ (s : AuthSession). not (member s.user_id ids)) db.sessions;
      recovery_codes = select (λ (c : RecoveryCode). not (member c.user_id ids)) db.recovery_codes;
      users = select (λ (u : User). not (member u.id ids)) db.users;
    }

abbrev pub first_admin : Crypto → Request → Draw → Text → Text → Text → User
first_admin k r d username display_name phrase = record {
  id = d.new_id;
  username = username;
  display_name = display_name;
  password_hash = k.hash_password phrase;
  role = admin;
  active = false;
  activation_token_hash = none;
  activation_expires_at = none;
  mfa_reset_token_hash = none;
  mfa_reset_expires_at = none;
  totp_secret_encrypted = some (k.encrypt_secret d.secret);
  totp_enabled = false;
  last_totp_step = none;
  failed_login_count = 0;
  locked_until = none;
  created_at = r.now;
  updated_at = r.now;
}

-- `setup`: the secret to enroll is in the answer.
unfoldable pub setup :
    (Text → Text) → Settings → Crypto → Request → Draw → Credentials → Text → AuthDb → Handled Text
setup casefold c k r d body name db =
    on_ok (normalize_username casefold body.username) db (λ username.
      let display_name = strip name in
      if not (nonempty display_name)
      then refuse 400 (text "Display name cannot be blank") db
      else on_ok (validate_password casefold body.password username) db (λ _.
        if ltb 0 (count_active db.users)
        then refuse 409 (text "Initial setup is already complete") db
        else let cleared = drop_pending db in
          let user = first_admin k r d username display_name body.password in
          let created =
            create_session c k r d user.id mfa_setup (minutes 10)
              (record cleared { users = user ∷ cleared.users }) in
          (
            audit (text "initial_setup") (text "pending_mfa") r (some user.id) end created,
            ok d.secret,
          )))

abbrev pub locked : Time → User → Bool
locked now u = is_some u.locked_until && ltb now (or_else u.locked_until 0)

-- One more failed attempt, or the lock.
abbrev pub count_failure : Settings → Time → User → User
count_failure c now u =
    if leb c.auth_login_max_attempts (suc u.failed_login_count)
    then record u {
      locked_until = some (now + minutes c.auth_lockout_minutes);
      failed_login_count = 0;
    }
    else record u { failed_login_count = suc u.failed_login_count }

abbrev pub accept_password : Crypto → Text → User → User
accept_password k phrase u = record u {
  password_hash =
      if k.needs_rehash u.password_hash then k.hash_password phrase else u.password_hash;
  failed_login_count = 0;
  locked_until = none;
}

abbrev pub by_name : Text → User → Bool
by_name username u = same u.username username && u.active

abbrev pub refused_login : Text → Request → Option ℕ → AuthDb → Handled Text
refused_login username r user_id db = (
  audit (text "login_password") (text "denied") r user_id (detail (text "username") username) db,
  http 401 (text "Invalid username or password"),
)

abbrev pub login_found :
    Settings → Crypto → Request → Draw → Text → Text → Option User → AuthDb → Handled Text
login_found c k r d username password_text none db = refused_login username r none db
login_found c k r d username password_text (some u) db =
    if k.verify_password u.password_hash password_text && not (locked r.now u)
    then (
      audit (text "login_password") (text "mfa_required") r (some u.id) end (
          create_session c k r d u.id password (minutes 5)
            (put_user r.now u.id (accept_password k password_text) db)),
      ok d.csrf,
    )
    else refused_login username r (some u.id) (put_user r.now u.id (count_failure c r.now) db)

-- `login`
unfoldable pub login :
    (Text → Text) → Settings → Crypto → Request → Draw → Credentials → AuthDb → Handled Text
login casefold c k r d body db =
    let username = casefold (strip body.username) in
    login_found c k r d username body.password (first (by_name username) db.users) db

-- `logout`: the session of the request is revoked.
abbrev pub logout_found : Request → ℕ → Option AuthSession → AuthDb → AuthDb
logout_found r user_id none db = db
logout_found r user_id (some s) db =
    audit (text "logout") (text "success") r (some user_id) end (put_session s.id (revoke r.now) db)
