-- ===== src/Lifecycle.antt =====
-- The operations of auth.py, users.py, api_tokens.py and admin_recovery.py as the steps of one
-- system: each takes the database of the accounts to the next.
pub mod Steps
pub mod Verified
pub mod Admins
use layerscope.Base.{ℕ, List, Option}
use layerscope.Base.Json.{Items}
use layerscope.Base.Text.{Text}
use layerscope.Config.{Settings}
use layerscope.Models.{Time, User, Role, AuthSession}
use layerscope.Auth.{AuthDb, Request, Draw, Crypto}
use layerscope.Auth.Login.{Credentials, setup, login, logout_found}
use layerscope.Auth.Enroll.{activate, reenroll_2fa}
use layerscope.Auth.Verify.{totp_verify}
use layerscope.Auth.Gate.{dispatch, Identity, require_session_auth, require_roles}
use layerscope.Users.{UserCreate, UserUpdate, create_user, update_user}
use layerscope.Users.Manage.{reissue_activation, reissue_2fa, unlock_user, remove_user}
use layerscope.Tokens.{ApiTokenCreate, create_api_token, revoke_api_token}
use layerscope.Recovery.{reset_admin_password}

-- What is asked of the system, with all that the request carries.
pub data Call : Type 0 where
  call_setup : Credentials → Text → Call
  call_login : Credentials → Call
  call_activate : Credentials → Text → Call
  call_reenroll : Credentials → Text → Call
  call_totp_verify : Text → Text → Call
  call_logout : ℕ → Option AuthSession → Call
  call_dispatch : Call
  call_require_session : Identity → Call
  call_require_roles : List Role → Items → Identity → Call
  call_create_user : User → UserCreate → Call
  call_update_user : User → ℕ → UserUpdate → Call
  call_reissue_activation : User → ℕ → Call
  call_reissue_2fa : User → ℕ → Call
  call_unlock : User → ℕ → Call
  call_remove : User → ℕ → Call
  call_create_token : User → ApiTokenCreate → Call
  call_revoke_token : User → ℕ → Call
  call_reset_password : Text → Text → Text → Call

module _ (casefold : Text → Text) (isoformat : Time → Text) (c : Settings) (k : Crypto) where
  unfoldable pub perform : Request → Draw → Call → AuthDb → AuthDb
  perform r d (call_setup body name) db = (setup casefold c k r d body name db).0
  perform r d (call_login body) db = (login casefold c k r d body db).0
  perform r d (call_activate body code) db = (activate casefold c k r d body code db).0
  perform r d (call_reenroll body code) db = (reenroll_2fa casefold c k r d body code db).0
  perform r d (call_totp_verify code csrf) db = (totp_verify c k r d code csrf db).0
  perform r d (call_logout user_id s) db = logout_found r user_id s db
  perform r d call_dispatch db = (dispatch casefold c k r db).0
  perform r d (call_require_session who) db = (require_session_auth r who db).0
  perform r d (call_require_roles roles names who) db = (require_roles roles names r who db).0
  perform r d (call_create_user actor body) db = (create_user casefold c k r d actor body db).0
  perform r d (call_update_user actor i body) db = (update_user casefold r actor i body db).0
  perform r d (call_reissue_activation actor i) db = (reissue_activation c k r d actor i db).0
  perform r d (call_reissue_2fa actor i) db = (reissue_2fa c k r d actor i db).0
  perform r d (call_unlock actor i) db = (unlock_user r actor i db).0
  perform r d (call_remove actor i) db = (remove_user r actor i db).0
  perform r d (call_create_token actor body) db =
      (create_api_token isoformat c k r d actor body db).0
  perform r d (call_revoke_token actor i) db = (revoke_api_token r actor i db).0
  perform r d (call_reset_password username new_password code) db =
      (reset_admin_password casefold k r.now username new_password code db).0

  -- A history of the system, from one database to another.
  pub data Reach : AuthDb → AuthDb → Type 0 where
    start : (db : AuthDb) → Reach db db
    next :
        (from db : AuthDb) (r : Request) (d : Draw) (call : Call)
        → Reach from db
        → Reach from (perform r d call db)
