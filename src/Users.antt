-- ===== src/Users.antt =====
-- backend/app/users.py: the accounts as an administrator manages them. The role of the caller is
-- checked before a handler runs (Auth/Gate); `casefold` is Python's.
pub mod Manage
pub mod Admins
pub mod Update
use layerscope.Base.{
  ℕ, Bool, true, false, not, ◌&&◌, ◌||◌, List, [], ◌∷◌, Option, none, some, ◌==◌, leb, is_some,
  or_else, select, map, if◌then◌else◌,
}
use layerscope.Base.Json.{Json, string, boolean, object, Fields, end, field}
use layerscope.Base.Table
use layerscope.Base.Text.{Text, text, same, strip, nonempty}
use layerscope.Config.{Settings}
use layerscope.Models.{Time, User, Role, viewer, operator, admin, ApiToken, AuditEvent}
use layerscope.Auth.{
  AuthDb, Request, Draw, Crypto, Reply, ok, http, Handled, refuse, on_ok, get_user, put_user, first,
  audit, number_detail, activation_hash, activation_expiry, drop_codes, user_key,
}
use layerscope.Auth.Accounts.{normalize_username, same_role, is_admin}
use layerscope.Auth.Admins.{count_admins}
use layerscope.Auth.Sessions.{revoke_credentials}

pub data AccountStatus : Type 0 where
  active activation_expired pending_activation disabled : AccountStatus

-- `status_for`
unfoldable pub status_for : Time → User → AccountStatus
status_for now u =
    if u.active
    then active
    else if is_some u.activation_token_hash
    then (if is_some u.activation_expires_at && leb (or_else u.activation_expires_at 0) now
        then activation_expired
        else pending_activation)
    else disabled

abbrev pub role_name : Role → Text
role_name viewer = text "viewer"
role_name operator = text "operator"
role_name admin = text "admin"

-- `ensure_role`
unfoldable pub ensure_role : (Text → Text) → Text → Reply Role
ensure_role casefold role =
    let normalized = casefold (strip role) in
    if same normalized (text "viewer")
    then ok viewer
    else if same normalized (text "operator")
    then ok operator
    else if same normalized (text "admin")
    then ok admin
    else http 400 (text "Role must be viewer, operator, or admin")

-- `ensure_not_last_admin`
unfoldable pub ensure_not_last_admin : AuthDb → User → Role → Bool → Reply (Unit {0})
ensure_not_last_admin db target next_role next_active =
    let removes_admin =
      is_admin target.role && target.active && (not (is_admin next_role) || not next_active) in
    if removes_admin && leb (count_admins db.users) 1
    then http 409 (text "The last active administrator cannot be disabled or demoted")
    else ok tt

abbrev pub target_details : User → Fields → Fields
target_details u rest =
    number_detail (text "target_user_id") u.id
      (field (text "target_username") (string u.username) rest)

pub record UserCreate : Type 0 where
  pub username : Text
  pub display_name : Text
  pub role : Text

pub record UserUpdate : Type 0 where
  pub display_name : Option Text
  pub role : Option Text
  pub active : Option Bool

abbrev pub new_user : Settings → Crypto → Request → Draw → Text → Text → Role → User
new_user c k r d username display_name role = record {
  id = d.new_id;
  username = username;
  display_name = display_name;
  password_hash = k.dummy_password_hash;
  role = role;
  active = false;
  activation_token_hash = some (activation_hash k d);
  activation_expires_at = some (activation_expiry c r);
  mfa_reset_token_hash = none;
  mfa_reset_expires_at = none;
  totp_secret_encrypted = none;
  totp_enabled = false;
  last_totp_step = none;
  failed_login_count = 0;
  locked_until = none;
  created_at = r.now;
  updated_at = r.now;
}

-- `create_user`: the new row and its activation code.
unfoldable pub create_user :
    (Text → Text)
    → Settings
    → Crypto
    → Request
    → Draw
    → User
    → UserCreate
    → AuthDb
    → Handled (User × Text)
create_user casefold c k r d actor body db =
    on_ok (normalize_username casefold body.username) db (λ username.
      on_ok (ensure_role casefold body.role) db (λ role.
        let display_name = strip body.display_name in
        let user = new_user c k r d username display_name role in
        if not (nonempty display_name)
        then refuse 400 (text "Display name cannot be blank") db
        else if is_some (first (λ (u : User). same u.username username) db.users)
        then refuse 409 (text "That username is already in use") db
        else (
          audit (text "user_create") (text "success") r (some actor.id)
              (target_details user (field (text "role") (string (role_name role)) end))
              (record db { users = user ∷ db.users }),
          ok (user, d.raw),
        )))

abbrev pub differs : Bool → Bool → Bool
differs true b = not b
differs false b = b

abbrev pub change_when : Bool → Text → Json → Fields → Fields
change_when true k v fs = field k v fs
change_when false k v fs = fs

-- The three attributes that `update_user` may write, each with what goes with it.
abbrev pub set_name : Bool → Request → User → Text → AuthDb → AuthDb
set_name true r target name db = put_user r.now target.id (λ u. record u { display_name = name }) db
set_name false r target name db = db

abbrev pub set_role : Bool → Request → User → Role → AuthDb → AuthDb
set_role true r target role db =
    revoke_credentials target.id r.now (put_user r.now target.id (λ u. record u { role = role }) db)
set_role false r target role db = db

abbrev pub set_active : Bool → Request → User → Bool → AuthDb → AuthDb
set_active true r target true db = put_user r.now target.id (λ u. record u { active = true }) db
set_active true r target false db =
    revoke_credentials target.id r.now
      (put_user r.now target.id (λ u. record u { active = false }) db)
set_active false r target on db = db

-- The writes of `update_user`, once its checks have passed.
unfoldable pub apply_update : Request → User → User → Text → Role → Bool → AuthDb → AuthDb
apply_update r actor target display_name next_role next_active db =
    let renamed = not (same display_name target.display_name) in
    let moved = not (same_role next_role target.role) in
    let switched = differs next_active target.active in
    let changes = change_when renamed (text "display_name") (string display_name) (
      change_when moved (text "role")
        (object (
          field (text "from") (string (role_name target.role))
            (field (text "to") (string (role_name next_role)) end)))
        (change_when switched (text "active") (boolean next_active) end)) in
    audit (text "user_update") (text "success") r (some actor.id)
      (target_details target (field (text "changes") (object changes) end))
      (set_active switched r target next_active
        (set_role moved r target next_role (set_name renamed r target display_name db)))

abbrev pub chosen_role : (Text → Text) → User → Option Text → Reply Role
chosen_role casefold target none = ok target.role
chosen_role casefold target (some role) = ensure_role casefold role

abbrev pub chosen_name : User → Option Text → Reply Text
chosen_name target none = ok target.display_name
chosen_name target (some name) =
    if nonempty (strip name)
    then ok (strip name)
    else http 400 (text "Display name cannot be blank")

abbrev pub update_found :
    (Text → Text) → Request → User → UserUpdate → Option User → AuthDb → Handled (Unit {0})
update_found casefold r actor body none db = refuse 404 (text "User not found") db
update_found casefold r actor body (some target) db =
    on_ok (chosen_role casefold target body.role) db (λ next_role.
      let next_active = or_else body.active target.active in
      if target.id == actor.id && (not (is_admin next_role) || not next_active)
      then refuse 409 (text "You cannot disable or remove your own administrator access") db
      else if next_active && not target.totp_enabled
      then refuse 409
          (text "The user must complete activation and 2FA enrollment before being enabled") db
      else on_ok (ensure_not_last_admin db target next_role next_active) db (λ _.
        on_ok (chosen_name target body.display_name) db
          (λ name. (apply_update r actor target name next_role next_active db, ok tt))))

-- `update_user`
unfoldable pub update_user :
    (Text → Text) → Request → User → ℕ → UserUpdate → AuthDb → Handled (Unit {0})
update_user casefold r actor user_id body db =
    update_found casefold r actor body (get_user db user_id) db
