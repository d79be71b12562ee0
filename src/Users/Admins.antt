-- ===== src/Users/Admins.antt =====
-- No operation of users.py leaves the program without an active administrator.
use layerscope.Base.{
  ℕ, ◌+◌, ◌-◌, ◌≤◌, ◌≡◌, refl, ap, ◌∙◌, Bool, true, false, not, ◌&&◌, ◌||◌, Option, none, some,
  ◌==◌, if◌then◌else◌, arith,
}
use layerscope.Base.Table
use layerscope.Base.Text.{Text}
use layerscope.Config.{Settings}
use layerscope.Models.{User, Role}
use layerscope.Auth.{
  AuthDb, Request, Draw, Crypto, Reply, ok, http, Handled, on_ok, get_user, put_user, user_key,
  audit,
}
use layerscope.Auth.Accounts.{is_admin}
use layerscope.Auth.Admins.{count_admins, HasAdmin, active_admin, bit, count-modify, count-remove}
use layerscope.Auth.Sessions.{revoke_credentials}
use layerscope.Users.{ensure_not_last_admin}
use layerscope.Users.Manage.{
  reissue_activation_found, reissue_2fa_found, unlock_found, remove_found, erase, reset_account,
  offer_reset, unlocked,
}

-- A row that replaces an account keeps an administrator.
pub put_user-HasAdmin :
    (r : Request) (i : ℕ) (f : User → User) (db : AuthDb) (u : User)
    → get_user db i ≡ some u
    → bit (active_admin u) ≤ bit (active_admin (f u)) + (count_admins db.users - 1)
    → HasAdmin db
    → HasAdmin (put_user r.now i f db)
put_user-HasAdmin r i f db u found enough h = ground (
  arith,
  enough,
  h,
  count-modify user_key i (λ v. record (f v) { updated_at = r.now }) db.users u found,
)

pub own_id : (i : ℕ) (db : AuthDb) (u : User) → get_user db i ≡ some u → get_user db u.id ≡ some u
own_id i db u e = ap (λ (j : ℕ). get_user db j) (Table.key-get user_key i db.users u e) ∙ e

-- A passed check: the account is no active administrator, or stays one, or is one of several.
pub passes :
    (db : AuthDb) (u : User) (role : Role) (on : Bool)
    → ensure_not_last_admin db u role on ≡ ok tt
    → bit (active_admin u) ≤ bit (is_admin role && on) + (count_admins db.users - 1)
unfolding ensure_not_last_admin
passes db u role on e = ground (arith, e)

-- What follows a check that passes.
pub on_ok-HasAdmin :
    {A B : Type 0} (o : Reply A) (db : AuthDb) (k : A → Handled B)
    → HasAdmin db
    → ((a : A) → o ≡ ok a → HasAdmin (k a).0)
    → HasAdmin (on_ok o db k).0
on_ok-HasAdmin (ok a) db k h f = f a refl
on_ok-HasAdmin (http code message) db k h f = h

-- A handler that refuses under a guard leaves the database.
pub unless-HasAdmin :
    {B : Type 0} (b : Bool) (code : ℕ) (message : Text) (db : AuthDb) (x : Handled B)
    → HasAdmin db
    → HasAdmin x.0
    → HasAdmin (if b then (db, http code message) else x).0
unless-HasAdmin true code message db x h g = h
unless-HasAdmin false code message db x h g = g

module _ (r : Request) (actor : User) (db : AuthDb) (h : HasAdmin db) where
  pub unlock_found-HasAdmin :
      (i : ℕ) (o : Option User) → get_user db i ≡ o → HasAdmin (unlock_found r actor o db).0
  unfolding audit
  unlock_found-HasAdmin i none e = h
  unlock_found-HasAdmin i (some u) e =
      put_user-HasAdmin r u.id unlocked db u (own_id i db u e) (omega arith) h

  erase-HasAdmin :
      (i : ℕ) (u : User)
      → get_user db i ≡ some u
      → ensure_not_last_admin db u u.role false ≡ ok tt
      → HasAdmin (erase r actor u db)
  unfolding erase audit revoke_credentials
  erase-HasAdmin i u e p = ground (
    arith,
    h,
    passes db u u.role false p,
    count-remove user_key u.id db.users u (own_id i db u e),
  )

  pub remove_found-HasAdmin :
      (i : ℕ) (o : Option User) → get_user db i ≡ o → HasAdmin (remove_found r actor o db).0
  remove_found-HasAdmin i none e = h
  remove_found-HasAdmin i (some u) e = unless-HasAdmin (u.id == actor.id) _ _ db _ h (
      on_ok-HasAdmin (ensure_not_last_admin db u u.role false) db _ h
        (λ _ p. erase-HasAdmin i u e p))

  module _ (c : Settings) (k : Crypto) (d : Draw) where
    pub reissue_activation_found-HasAdmin :
        (i : ℕ) (o : Option User)
        → get_user db i ≡ o
        → HasAdmin (reissue_activation_found c k r d actor o db).0
    unfolding audit revoke_credentials
    reissue_activation_found-HasAdmin i none e = h
    reissue_activation_found-HasAdmin i (some u) e = unless-HasAdmin (u.id == actor.id) _ _ db _ h (
        on_ok-HasAdmin (ensure_not_last_admin db u u.role false) db _ h (λ _ p.
          put_user-HasAdmin r u.id (reset_account c k r d) db u (own_id i db u e)
            (passes db u u.role false p) h))

    pub reissue_2fa_found-HasAdmin :
        (i : ℕ) (o : Option User)
        → get_user db i ≡ o
        → HasAdmin (reissue_2fa_found c k r d actor o db).0
    unfolding audit revoke_credentials
    reissue_2fa_found-HasAdmin i none e = h
    reissue_2fa_found-HasAdmin i (some u) e = unless-HasAdmin (u.id == actor.id) _ _ db _ h (
        unless-HasAdmin (not u.active || not u.totp_enabled) _ _ db _ h
          (put_user-HasAdmin r u.id (offer_reset c k r d) db u (own_id i db u e) (omega arith) h))
