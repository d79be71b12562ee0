-- ===== src/Auth/Lockout.antt =====
-- What the lock of an account promises at `login`.
use layerscope.Base.{
  ℕ, suc, ◌+◌, ◌<◌, ◌≤◌, ◌≡◌, ==_refl, refl, Bool, true, false, not, ◌&&◌, List, [], ◌∷◌, Option,
  none, some, all, ltb, arith, Bool-cases, inl, inr,
}
use layerscope.Base.Table
use layerscope.Base.Text.{Text, strip}
use layerscope.Config.{Settings}
use layerscope.Models.{User, minutes}
use layerscope.Auth.{
  AuthDb, get_user, Request, Draw, Crypto, Reply, ok, http, first, audit, user_key,
}
use layerscope.Auth.Login.{
  Credentials, login, login_found, by_name, locked, count_failure, accept_password,
}
use layerscope.Auth.Sessions.{create_session}

-- The account has failed fewer times in a row than the settings allow.
abbrev pub under : Settings → User → Bool
under c u = ltb u.failed_login_count c.auth_login_max_attempts

abbrev pub opened : Reply Text → Bool
opened (ok t) = true
opened (http code message) = false

module _ (p : User → Bool) (i : ℕ) (f : User → User)
    (keeps : (u : User) → p u ≡ true → p (f u) ≡ true) where
  all-modify : (t : List User) → all p t ≡ true → all p (Table.modify user_key i f t) ≡ true
  unfolding Table.modify
  all-modify [] h = refl
  all-modify (u ∷ t) h = ground (arith, h, keeps u, all-modify t)

module _ (casefold : Text → Text) (c : Settings) (k : Crypto) (r : Request) (d : Draw)
    (db : AuthDb) where
  -- What `login` requires of the account it finds.
  abbrev pub Unlocked : Text → Option User → Type 0
  Unlocked phrase none = ⊥
  Unlocked phrase (some u) =
      (k.verify_password u.password_hash phrase ≡ true) × (locked r.now u ≡ false)

  -- An account after a failed attempt.
  abbrev pub Counted : User → Option User → Type 0
  Counted u none = ⊥
  Counted u (some v) =
      (c.auth_login_max_attempts ≤ suc u.failed_login_count
        → (v.locked_until ≡ some (r.now + minutes c.auth_lockout_minutes))
          × (v.failed_login_count ≡ 0))
      × (suc u.failed_login_count < c.auth_login_max_attempts
          → (v.locked_until ≡ u.locked_until) × (v.failed_login_count ≡ suc u.failed_login_count))

  found-Unlocked :
      (username phrase : Text) (o : Option User)
      → opened (login_found c k r d username phrase o db).1 ≡ true
      → Unlocked phrase o
  found-Unlocked username phrase none h = ground (arith, h)
  found-Unlocked username phrase (some u) h = ground (arith, h)

  found_under :
      (username phrase : Text) (o : Option User)
      → 1 ≤ c.auth_login_max_attempts
      → all (under c) db.users ≡ true
      → all (under c) (login_found c k r d username phrase o db).0.users ≡ true
  unfolding audit create_session
  found_under username phrase none m h = h
  found_under username phrase (some u) m h =
      elim (Bool-cases (k.verify_password u.password_hash phrase && not (locked r.now u))) [
        | inl e ↦ rw e (
            all-modify (under c) u.id
              (λ v. record (accept_password k phrase v) { updated_at = r.now })
              (λ v x. ground (arith, m)) db.users h)
        | inr e ↦ rw e (
            all-modify (under c) u.id (λ v. record (count_failure c r.now v) { updated_at = r.now })
              (λ v x. ground (arith, m, x)) db.users h)
      ]

  failed-Counted :
      (u : User) → Counted u (some (record (count_failure c r.now u) { updated_at = r.now }))
  failed-Counted u = (λ at_limit. ground arith, λ below. ground arith)

  found_counts :
      (username phrase : Text) (u : User)
      → get_user db u.id ≡ some u
      → opened (login_found c k r d username phrase (some u) db).1 ≡ false
      → Counted u (get_user (login_found c k r d username phrase (some u) db).0 u.id)
  unfolding audit
  found_counts username phrase u known h =
      elim (Bool-cases (k.verify_password u.password_hash phrase && not (locked r.now u))) [
        | inl e ↦ ground (arith, e, h)
        | inr e ↦ rw e (
            rw
              (
                Table.get-modify user_key u.id u.id
                    (λ v. record (count_failure c r.now v) { updated_at = r.now }) db.users
                    (λ v. ground arith),
                ==_refl u.id,
                known,
              )
              (failed-Counted u))
      ]

  -- `login` opens a session only for an active account with the right password that is not locked,
  -- and no account's count of failures ever reaches the maximum. A refused attempt on a known account
  -- adds one to its count, or, where that makes the maximum, locks the account for the time of the
  -- settings and starts the count again.
  pub login-Unlocked :
      (body : Credentials)
      → 1 ≤ c.auth_login_max_attempts
      → all (under c) db.users ≡ true
      → (opened (login casefold c k r d body db).1 ≡ true
          → Unlocked body.password (first (by_name (casefold (strip body.username))) db.users))
        × (all (under c) (login casefold c k r d body db).0.users ≡ true)
        × ((u : User)
            → first (by_name (casefold (strip body.username))) db.users ≡ some u
            → get_user db u.id ≡ some u
            → opened (login casefold c k r d body db).1 ≡ false
            → Counted u (get_user (login casefold c k r d body db).0 u.id))
  unfolding login
  login-Unlocked body m h =
      let o = first (by_name (casefold (strip body.username))) db.users in
      (
        found-Unlocked _ body.password o,
        found_under _ body.password o m h,
        λ u e known refused. rw e (found_counts _ body.password u known (rw e at refused)),
      )
