-- ===== src/Lifecycle/Admins.antt =====
-- The program always has an active administrator, once it has one.
use layerscope.Base.{refl, List, Option, none, some, arith}
use layerscope.Base.Json.{Fields}
use layerscope.Base.Text.{Text}
use layerscope.Config.{Settings}
use layerscope.Models.{Time, User, Role, ApiToken}
use layerscope.Auth.{AuthDb, Request, Draw, Crypto, audit, get_user}
use layerscope.Auth.Admins.{HasAdmin, count_admins}
use layerscope.Auth.Login.{login}
use layerscope.Auth.Accounts.{normalize_username}
use layerscope.Auth.Enroll.{activate, reenroll_2fa}
use layerscope.Auth.Gate.{
  Identity, anonymous, by_session, by_token, require_session_auth, require_roles, check_role,
}
use layerscope.Users.{create_user, UserCreate, ensure_role}
use layerscope.Users.Manage.{reissue_activation, reissue_2fa, unlock_user, remove_user}
use layerscope.Users.Admins.{
  on_ok-HasAdmin, unlock_found-HasAdmin, remove_found-HasAdmin, reissue_activation_found-HasAdmin,
  reissue_2fa_found-HasAdmin,
}
use layerscope.Users.Update.{update_user-HasAdmin}
use layerscope.Tokens.{create_api_token, revoke_api_token, revoke_found, ApiTokenCreate}
use layerscope.Lifecycle.{
  Call, call_setup, call_login, call_activate, call_reenroll, call_totp_verify, call_logout,
  call_dispatch, call_require_session, call_require_roles, call_create_user, call_update_user,
  call_reissue_activation, call_reissue_2fa, call_unlock, call_remove, call_create_token,
  call_revoke_token, call_reset_password, perform, Reach, start, next,
}
use layerscope.Lifecycle.Steps.{
  login_found-HasAdmin, activate_found-HasAdmin, reenroll_found-HasAdmin, setup-HasAdmin,
}
use layerscope.Lifecycle.Verified.{
  totp_verify-HasAdmin, dispatch-HasAdmin, reset_admin_password-HasAdmin,
}

module _ (r : Request) (db : AuthDb) (a : HasAdmin db) where
  require_session_auth-HasAdmin : (who : Identity) → HasAdmin (require_session_auth r who db).0
  unfolding require_session_auth audit
  require_session_auth-HasAdmin anonymous = a
  require_session_auth-HasAdmin (by_session s u) = a
  require_session_auth-HasAdmin (by_token t u) = a

  check_role-HasAdmin :
      (roles : List Role) (details : Fields) (o : Option User)
      → HasAdmin (check_role roles details r o db).0
  unfolding audit
  check_role-HasAdmin roles details none = a
  check_role-HasAdmin roles details (some u) = ground (arith, a)

  create_user-HasAdmin :
      (casefold : Text → Text) (c : Settings) (k : Crypto) (d : Draw) (actor : User)
      (body : UserCreate)
      → HasAdmin (create_user casefold c k r d actor body db).0
  unfolding create_user audit count_admins
  create_user-HasAdmin casefold c k d actor body =
      on_ok-HasAdmin (normalize_username casefold body.username) db _ a (λ username _.
        on_ok-HasAdmin (ensure_role casefold body.role) db _ a (λ role _. ground (arith, a)))

  create_api_token-HasAdmin :
      (isoformat : Time → Text) (c : Settings) (k : Crypto) (d : Draw) (actor : User)
      (body : ApiTokenCreate)
      → HasAdmin (create_api_token isoformat c k r d actor body db).0
  unfolding create_api_token audit
  create_api_token-HasAdmin isoformat c k d actor body = ground (arith, a)

  revoke_found-HasAdmin :
      (actor : User) (o : Option ApiToken) → HasAdmin (revoke_found r actor o db).0
  unfolding audit
  revoke_found-HasAdmin actor none = a
  revoke_found-HasAdmin actor (some t) = ground (arith, a)

module _ (casefold : Text → Text) (isoformat : Time → Text) (c : Settings) (k : Crypto) where
  perform-HasAdmin :
      (r : Request) (d : Draw) (call : Call) (db : AuthDb)
      → HasAdmin db
      → HasAdmin (perform casefold isoformat c k r d call db)
  unfolding perform require_roles revoke_api_token login activate reenroll_2fa unlock_user
      remove_user reissue_activation reissue_2fa audit
  perform-HasAdmin r d (call_setup body name) db a = setup-HasAdmin casefold c k r d db a body name
  perform-HasAdmin r d (call_login body) db a = login_found-HasAdmin casefold c k r d db a _ _ _
  perform-HasAdmin r d (call_activate body code) db a =
      activate_found-HasAdmin casefold c k r d db a _ _ _ _
  perform-HasAdmin r d (call_reenroll body code) db a =
      reenroll_found-HasAdmin casefold c k r d db a _ _ _ _
  perform-HasAdmin r d (call_totp_verify code csrf) db a =
      totp_verify-HasAdmin c k r d code csrf db a
  perform-HasAdmin r d (call_logout user_id none) db a = a
  perform-HasAdmin r d (call_logout user_id (some s)) db a = a
  perform-HasAdmin r d call_dispatch db a = dispatch-HasAdmin c k r d casefold db a
  perform-HasAdmin r d (call_require_session who) db a = require_session_auth-HasAdmin r db a who
  perform-HasAdmin r d (call_require_roles roles names who) db a =
      check_role-HasAdmin r db a roles _ _
  perform-HasAdmin r d (call_create_user actor body) db a =
      create_user-HasAdmin r db a casefold c k d actor body
  perform-HasAdmin r d (call_update_user actor i body) db a =
      update_user-HasAdmin casefold r actor db a i body
  perform-HasAdmin r d (call_reissue_activation actor i) db a =
      reissue_activation_found-HasAdmin r actor db a c k d i (get_user db i) refl
  perform-HasAdmin r d (call_reissue_2fa actor i) db a =
      reissue_2fa_found-HasAdmin r actor db a c k d i (get_user db i) refl
  perform-HasAdmin r d (call_unlock actor i) db a =
      unlock_found-HasAdmin r actor db a i (get_user db i) refl
  perform-HasAdmin r d (call_remove actor i) db a =
      remove_found-HasAdmin r actor db a i (get_user db i) refl
  perform-HasAdmin r d (call_create_token actor body) db a =
      create_api_token-HasAdmin r db a isoformat c k d actor body
  perform-HasAdmin r d (call_revoke_token actor i) db a = revoke_found-HasAdmin r db a actor _
  perform-HasAdmin r d (call_reset_password username new_password code) db a =
      reset_admin_password-HasAdmin casefold k r.now username new_password code db a

  -- From a database with an active administrator, no history of sign-ins, enrollments, account
  -- changes by administrators, API tokens and recoveries reaches one without.
  pub Reach-HasAdmin :
      (from db : AuthDb) → HasAdmin from → Reach casefold isoformat c k from db → HasAdmin db
  Reach-HasAdmin from db a (start _) = a
  Reach-HasAdmin from _ a (next _ prev r d call p) =
      perform-HasAdmin r d call prev (Reach-HasAdmin from prev a p)
