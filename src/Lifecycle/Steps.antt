-- ===== src/Lifecycle/Steps.antt =====
-- What each handler of auth.py, api_tokens.py and admin_recovery.py does to the accounts: none takes
-- an active administrator away.
use layerscope.Base.{ℕ, ◌≤◌, Bool, true, false, Option, none, some, if◌then◌else◌, arith}
use layerscope.Base.Text.{Text}
use layerscope.Config.{Settings}
use layerscope.Models.{Time, User}
use layerscope.Auth.{AuthDb, Request, Draw, Crypto, Handled, put_user, user_key, audit}
use layerscope.Auth.Accounts.{normalize_username, validate_password}
use layerscope.Auth.Admins.{HasAdmin, active_admin, bit, count-modify-le, count_admins-active}
use layerscope.Auth.Enroll.{activate_found, reenroll_found, start_activation, start_reenrollment}
use layerscope.Auth.Login.{Credentials, setup, login_found, accept_password, count_failure}
use layerscope.Auth.Sessions.{create_session, revoke_credentials}
use layerscope.Users.Admins.{on_ok-HasAdmin, unless-HasAdmin}

-- A change of one row that takes nothing from an active administrator.
pub put_user-keeps :
    (now : Time) (i : ℕ) (f : User → User) (db : AuthDb)
    → ((u : User) → bit (active_admin u) ≤ bit (active_admin (f u)))
    → HasAdmin db
    → HasAdmin (put_user now i f db)
put_user-keeps now i f db h a =
    omega (arith, a, count-modify-le user_key i (λ u. record (f u) { updated_at = now }) db.users h)

pub either-HasAdmin :
    {B : Type 0} (b : Bool) (x y : Handled B)
    → HasAdmin x.0
    → HasAdmin y.0
    → HasAdmin (if b then x else y).0
either-HasAdmin true x y h g = h
either-HasAdmin false x y h g = g

failure-le :
    (c : Settings) (now : Time) (u : User)
    → bit (active_admin u) ≤ bit (active_admin (count_failure c now u))
failure-le c now u = ground arith

module _ (casefold : Text → Text) (c : Settings) (k : Crypto) (r : Request) (d : Draw) (db : AuthDb)
    (a : HasAdmin db) where
  pub login_found-HasAdmin :
      (username phrase : Text) (o : Option User)
      → HasAdmin (login_found c k r d username phrase o db).0
  unfolding audit create_session
  login_found-HasAdmin username phrase none = a
  login_found-HasAdmin username phrase (some u) =
      either-HasAdmin _ _ _
        (put_user-keeps r.now u.id (accept_password k phrase) db (λ v. omega arith) a)
        (put_user-keeps r.now u.id (count_failure c r.now) db (failure-le c r.now) a)

  pub activate_found-HasAdmin :
      (username phrase code : Text) (o : Option User)
      → HasAdmin (activate_found casefold c k r d username phrase code o db).0
  unfolding audit create_session revoke_credentials
  activate_found-HasAdmin username phrase code none = a
  activate_found-HasAdmin username phrase code (some u) =
      either-HasAdmin _ _ _
        (on_ok-HasAdmin (validate_password casefold phrase username) db _ a
          (λ _ _. put_user-keeps r.now u.id (start_activation k d phrase) db (λ v. omega arith) a))
        a

  pub reenroll_found-HasAdmin :
      (username phrase code : Text) (o : Option User)
      → HasAdmin (reenroll_found c k r d username phrase code o db).0
  unfolding audit create_session revoke_credentials
  reenroll_found-HasAdmin username phrase code none = a
  reenroll_found-HasAdmin username phrase code (some u) =
      either-HasAdmin _ _ _
        (put_user-keeps r.now u.id (start_reenrollment k d) db (λ v. omega arith) a) a

  pub setup-HasAdmin :
      (body : Credentials) (name : Text) → HasAdmin (setup casefold c k r d body name db).0
  unfolding setup
  setup-HasAdmin body name =
      on_ok-HasAdmin (normalize_username casefold body.username) db _ a (λ username _.
        unless-HasAdmin _ _ _ db _ a (
          on_ok-HasAdmin (validate_password casefold body.password username) db _ a
            (λ _ _. ground (arith, a, count_admins-active db.users))))
