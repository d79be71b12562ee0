-- ===== src/Lifecycle/Verified.antt =====
-- The second factor, the gate and the console recovery take no active administrator away.
use layerscope.Base.{ℕ, ◌≤◌, List, [], ◌∷◌, Option, none, some, arith, Bool-cases, inl, inr}
use layerscope.Base.Json.{Fields}
use layerscope.Base.Text.{Text, nonempty}
use layerscope.Config.{Settings}
use layerscope.Models.{Time, User, AuthSession, AuthLevel, full, RecoveryCode, ApiToken}
use layerscope.Auth.{AuthDb, Request, Draw, Crypto, Reply, ok, http, audit}
use layerscope.Auth.Admins.{HasAdmin, active_admin, bit}
use layerscope.Auth.Gate.{dispatch, is_open, through_session, through_token}
use layerscope.Auth.Sessions.{create_session, revoke_credentials, get_session, users-get_session}
use layerscope.Auth.Verify.{
  totp_verify, verify_found, decide, grant, enroll, enabled, is_enrollment, use_step, use_code,
}
use layerscope.Lifecycle.Steps.{put_user-keeps, either-HasAdmin}
use layerscope.Recovery.{
  Outcome, done, error, active_admin_of, find_admin, named_admin, only_admin, record_event,
  check_reset, decide_reset, commit_reset, reset_for, reset_user, reset_admin_password,
}

audit-HasAdmin :
    (action outcome : Text) (r : Request) (i : Option ℕ) (details : Fields) (db : AuthDb)
    → HasAdmin db
    → HasAdmin (audit action outcome r i details db)
unfolding audit
audit-HasAdmin action outcome r i details db a = a

enabled-le : (u : User) → bit (active_admin u) ≤ bit (active_admin (enabled u))
enabled-le u = ground arith

use_step-HasAdmin :
    (now : Time) (i : ℕ) (o : Option ℕ) (db : AuthDb) → HasAdmin db → HasAdmin (use_step now i o db)
use_step-HasAdmin now i none db a = a
use_step-HasAdmin now i (some step) db a =
    put_user-keeps now i (λ u. record u { last_totp_step = some step }) db (λ v. omega arith) a

use_code-HasAdmin :
    (now : Time) (o : Option RecoveryCode) (db : AuthDb)
    → HasAdmin db
    → HasAdmin (use_code now o db)
use_code-HasAdmin now none db a = a
use_code-HasAdmin now (some _) db a = a

module _ (c : Settings) (k : Crypto) (r : Request) (d : Draw) where
  enroll-HasAdmin :
      (i : ℕ) (level : AuthLevel) (db : AuthDb) → HasAdmin db → HasAdmin (enroll k r d i level db)
  enroll-HasAdmin i level db a = elim (Bool-cases (is_enrollment level)) [
    | inl e ↦ rw e (put_user-keeps r.now i enabled db enabled-le a)
    | inr e ↦ rw e a
  ]

  grant-HasAdmin :
      (s : AuthSession) (u : User) (step : Option ℕ) (recovery : Option RecoveryCode) (db : AuthDb)
      → HasAdmin db
      → HasAdmin (grant c k r d s u step recovery db).0
  unfolding audit create_session
  grant-HasAdmin s u step recovery db a =
      enroll-HasAdmin u.id s.auth_level _
        (use_code-HasAdmin r.now recovery _ (use_step-HasAdmin r.now u.id step db a))

  decide-HasAdmin :
      (s : AuthSession) (u : User) (step : Option ℕ) (recovery : Option RecoveryCode) (db : AuthDb)
      → HasAdmin db
      → HasAdmin (decide c k r d s u step recovery db).0
  unfolding audit
  decide-HasAdmin s u none none db a = a
  decide-HasAdmin s u none (some code) db a = grant-HasAdmin s u none (some code) db a
  decide-HasAdmin s u (some step) recovery db a = grant-HasAdmin s u (some step) recovery db a

  verify_found-HasAdmin :
      (code csrf : Text) (o : Option (AuthSession × User)) (db : AuthDb)
      → HasAdmin db
      → HasAdmin (verify_found c k r d code csrf o db).0
  verify_found-HasAdmin code csrf none db a = a
  verify_found-HasAdmin code csrf (some (s, u)) db a =
      either-HasAdmin _ _ _ a (decide-HasAdmin s u _ _ db a)

  pub totp_verify-HasAdmin :
      (code csrf : Text) (db : AuthDb) → HasAdmin db → HasAdmin (totp_verify c k r d code csrf db).0
  unfolding totp_verify
  totp_verify-HasAdmin code csrf db a =
      verify_found-HasAdmin code csrf (get_session c k r none db).1 (get_session c k r none db).0
        (rw (users-get_session c k r none db) a)

  through_session-HasAdmin :
      (o : Option (AuthSession × User)) (db : AuthDb)
      → HasAdmin db
      → HasAdmin (through_session r o db).0
  unfolding audit
  through_session-HasAdmin none db a = a
  through_session-HasAdmin (some (s, u)) db a = ground (arith, a)

  through_token-HasAdmin :
      (o : Option (ApiToken × User)) (db : AuthDb) → HasAdmin db → HasAdmin (through_token r o db).0
  unfolding audit
  through_token-HasAdmin none db a = a
  through_token-HasAdmin (some (t, u)) db a = ground (arith, a)

  pub dispatch-HasAdmin :
      (casefold : Text → Text) (db : AuthDb) → HasAdmin db → HasAdmin (dispatch casefold c k r db).0
  unfolding dispatch
  dispatch-HasAdmin casefold db a = elim (Bool-cases (is_open r)) [
    | inl o ↦ rw o a
    | inr o ↦ elim (Bool-cases (nonempty r.authorization)) [
      | inl e ↦ elim (Bool-cases (nonempty r.cookie)) [
        | inl e' ↦ rw (o, e, e') (audit-HasAdmin _ _ r _ _ db a)
        | inr e' ↦ rw (o, e, e') (through_token-HasAdmin _ db a)
      ]
      | inr e ↦
          rw (o, e)
            (through_session-HasAdmin (get_session c k r (some full) db).1
              (get_session c k r (some full) db).0 (rw (users-get_session c k r (some full) db) a))
    ]
  ]

module _ (casefold : Text → Text) (k : Crypto) (now : Time) where
  only_admin-HasAdmin : (db : AuthDb) (l : List User) → HasAdmin db → HasAdmin (only_admin db l).0
  only_admin-HasAdmin db [] a = a
  only_admin-HasAdmin db (u ∷ []) a = a
  only_admin-HasAdmin db (u ∷ v ∷ l) a = a

  named_admin-HasAdmin :
      (db : AuthDb) (o : Option User) → HasAdmin db → HasAdmin (named_admin now db o).0
  unfolding record_event
  named_admin-HasAdmin db none a = a
  named_admin-HasAdmin db (some u) a = a

  find_admin-HasAdmin :
      (db : AuthDb) (o : Reply Text) → HasAdmin db → HasAdmin (find_admin now db o).0
  unfolding record_event
  find_admin-HasAdmin db (ok name) a = named_admin-HasAdmin db _ a
  find_admin-HasAdmin db (http code message) a = a

  active_admin_of-HasAdmin :
      (name : Text) (db : AuthDb) → HasAdmin db → HasAdmin (active_admin_of casefold now name db).0
  unfolding active_admin_of
  active_admin_of-HasAdmin name db a = elim (Bool-cases (nonempty name)) [
    | inl e ↦ rw e (find_admin-HasAdmin db _ a)
    | inr e ↦ rw e (only_admin-HasAdmin db _ a)
  ]

  commit_reset-HasAdmin :
      (u : User) (new_password : Text) (step : Option ℕ) (recovery : Option RecoveryCode)
      (db : AuthDb)
      → HasAdmin db
      → HasAdmin (commit_reset k now u new_password step recovery db).0
  unfolding record_event revoke_credentials
  commit_reset-HasAdmin u new_password step recovery db a =
      put_user-keeps now u.id (reset_user k new_password)
        (use_code now recovery (use_step now u.id step db)) (λ v. omega arith)
        (use_code-HasAdmin now recovery _ (use_step-HasAdmin now u.id step db a))

  decide_reset-HasAdmin :
      (u : User) (new_password : Text) (step : Option ℕ) (recovery : Option RecoveryCode)
      (db : AuthDb)
      → HasAdmin db
      → HasAdmin (decide_reset k now u new_password step recovery db).0
  unfolding record_event
  decide_reset-HasAdmin u p none none db a = a
  decide_reset-HasAdmin u p (some step) recovery db a =
      commit_reset-HasAdmin u p (some step) recovery db a
  decide_reset-HasAdmin u p none (some code) db a = commit_reset-HasAdmin u p none (some code) db a

  check_reset-HasAdmin :
      (u : User) (new_password code : Text) (o : Reply (Unit {0})) (db : AuthDb)
      → HasAdmin db
      → HasAdmin (check_reset k now u new_password code o db).0
  unfolding record_event
  check_reset-HasAdmin u p code (http n message) db a = a
  check_reset-HasAdmin u p code (ok _) db a =
      elim (Bool-cases (k.verify_password u.password_hash p)) [
        | inl e ↦ rw e a
        | inr e ↦ rw e (decide_reset-HasAdmin u p _ _ db a)
      ]

  reset_for-HasAdmin :
      (new_password code : Text) (o : Outcome User)
      → HasAdmin o.0
      → HasAdmin (reset_for casefold k now new_password code o).0
  reset_for-HasAdmin p code (db, error message) a = a
  reset_for-HasAdmin p code (db, done u) a = check_reset-HasAdmin u p code _ db a

  pub reset_admin_password-HasAdmin :
      (name new_password code : Text) (db : AuthDb)
      → HasAdmin db
      → HasAdmin (reset_admin_password casefold k now name new_password code db).0
  unfolding reset_admin_password
  reset_admin_password-HasAdmin name p code db a =
      reset_for-HasAdmin p code _ (active_admin_of-HasAdmin name db a)
