-- ===== src/Users/Manage.antt =====
-- backend/app/users.py: what an administrator does to another account.
use layerscope.Base.{ℕ, false, not, ◌||◌, Option, none, some, ◌==◌, select, map, if◌then◌else◌}
use layerscope.Base.Json.{string, end, field}
use layerscope.Base.Table
use layerscope.Base.Text.{Text, text}
use layerscope.Config.{Settings}
use layerscope.Models.{User, ApiToken, AuditEvent}
use layerscope.Auth.{
  AuthDb, Request, Draw, Crypto, ok, Handled, refuse, on_ok, get_user, put_user, audit,
  activation_hash, activation_expiry, drop_codes, user_key,
}
use layerscope.Auth.Sessions.{revoke_credentials}
use layerscope.Users.{ensure_not_last_admin, target_details, role_name}

abbrev pub not_found : {A : Type 0} → AuthDb → Handled A
not_found db = refuse 404 (text "User not found") db

abbrev pub reset_account : Settings → Crypto → Request → Draw → User → User
reset_account c k r d u = record u {
  password_hash = k.dummy_password_hash;
  active = false;
  totp_enabled = false;
  totp_secret_encrypted = none;
  last_totp_step = none;
  activation_token_hash = some (activation_hash k d);
  activation_expires_at = some (activation_expiry c r);
  failed_login_count = 0;
  locked_until = none;
}

abbrev pub reissue_activation_found :
    Settings → Crypto → Request → Draw → User → Option User → AuthDb → Handled Text
reissue_activation_found c k r d actor none db = not_found db
reissue_activation_found c k r d actor (some target) db =
    if target.id == actor.id
    then refuse 409 (text "Use a self-service security flow for your own account") db
    else on_ok (ensure_not_last_admin db target target.role false) db (λ _. (
      audit (text "user_activation_reissue") (text "success") r (some actor.id)
          (target_details target end)
          (put_user r.now target.id (reset_account c k r d)
            (drop_codes target.id (revoke_credentials target.id r.now db))),
      ok d.raw,
    ))

unfoldable pub reissue_activation :
    Settings → Crypto → Request → Draw → User → ℕ → AuthDb → Handled Text
reissue_activation c k r d actor user_id db =
    reissue_activation_found c k r d actor (get_user db user_id) db

abbrev pub offer_reset : Settings → Crypto → Request → Draw → User → User
offer_reset c k r d u = record u {
  mfa_reset_token_hash = some (activation_hash k d);
  mfa_reset_expires_at = some (activation_expiry c r);
  failed_login_count = 0;
  locked_until = none;
}

abbrev pub reissue_2fa_found :
    Settings → Crypto → Request → Draw → User → Option User → AuthDb → Handled Text
reissue_2fa_found c k r d actor none db = not_found db
reissue_2fa_found c k r d actor (some target) db =
    if target.id == actor.id
    then refuse 409 (text "An administrator cannot reissue their own 2FA enrollment") db
    else if not target.active || not target.totp_enabled
    then refuse 409 (text "2FA can only be reissued for an active, enrolled user") db
    else (
      audit (text "user_2fa_reissue") (text "success") r (some actor.id) (target_details target end)
          (put_user r.now target.id (offer_reset c k r d)
            (drop_codes target.id (revoke_credentials target.id r.now db))),
      ok d.raw,
    )

unfoldable pub reissue_2fa : Settings → Crypto → Request → Draw → User → ℕ → AuthDb → Handled Text
reissue_2fa c k r d actor user_id db = reissue_2fa_found c k r d actor (get_user db user_id) db

abbrev pub unlocked : User → User
unlocked u = record u { failed_login_count = 0; locked_until = none }

abbrev pub unlock_found : Request → User → Option User → AuthDb → Handled (Unit {0})
unlock_found r actor none db = not_found db
unlock_found r actor (some target) db = (
  audit (text "user_unlock") (text "success") r (some actor.id) (target_details target end)
      (put_user r.now target.id unlocked db),
  ok tt,
)

unfoldable pub unlock_user : Request → User → ℕ → AuthDb → Handled (Unit {0})
unlock_user r actor user_id db = unlock_found r actor (get_user db user_id) db

abbrev pub forget : ℕ → AuditEvent → AuditEvent
forget user_id e = record e { user_id = unless_is user_id e.user_id }
  where
    unless_is : ℕ → Option ℕ → Option ℕ
    unless_is i none = none
    unless_is i (some j) = if j == i then none else some j

-- The rows that name the account go, and the audit events forget it.
unfoldable pub erase : Request → User → User → AuthDb → AuthDb
erase r actor target db =
    let db1 = drop_codes target.id (revoke_credentials target.id r.now db) in
    let db2 = record db1 {
      api_tokens = select (λ (t : ApiToken). not (t.user_id == target.id)) db1.api_tokens;
      audit_events = map (forget target.id) db1.audit_events;
    } in
    let db3 =
      audit (text "user_delete") (text "success") r (some actor.id)
        (target_details target (
          field (text "target_display_name") (string target.display_name)
            (field (text "target_role") (string (role_name target.role)) end)))
        db2 in
    record db3 { users = Table.remove user_key target.id db3.users }

abbrev pub remove_found : Request → User → Option User → AuthDb → Handled (Unit {0})
remove_found r actor none db = not_found db
remove_found r actor (some target) db =
    if target.id == actor.id
    then refuse 409 (text "You cannot remove your own account") db
    else on_ok (ensure_not_last_admin db target target.role false) db
        (λ _. (erase r actor target db, ok tt))

unfoldable pub remove_user : Request → User → ℕ → AuthDb → Handled (Unit {0})
remove_user r actor user_id db = remove_found r actor (get_user db user_id) db
