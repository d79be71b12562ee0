-- ===== src/Auth/Gate/Passed.antt =====
-- Who passes the middleware.
use layerscope.Base.{
  ℕ, ◌<◌, ◌≡◌, refl, sym, ap, ◌∙◌, Bool, true, false, not, ◌&&◌, Option, none, some, is_some, arith,
  Bool-cases, inl, inr, or_else, if◌then◌else◌,
}
use layerscope.Base.Text.{Text, nonempty, same}
use layerscope.Config.{Settings}
use layerscope.Models.{User, AuthSession, full, ApiToken}
use layerscope.Auth.{AuthDb, Request, Crypto, Reply, Handled, ok, http, get_user}
use layerscope.Auth.Gate.{
  dispatch, Identity, anonymous, by_session, by_token, is_open, changes_state, through_session,
  through_token, token_of_bearer, bearer, partition,
}
use layerscope.Auth.Sessions.{get_session, csrf_valid, token_matches}
use layerscope.Auth.Sessions.Valid.{SignsIn, get_session-SignsIn, get_api_token-valid}

-- A session that signs in, with the form token on a request that changes something; or the token that
-- the request bears, not revoked and not expired, of an active account that has enrolled.
abbrev pub Passes : (Text → Text) → Settings → Crypto → Request → AuthDb → Identity → Type 0
Passes casefold c k r db anonymous = ⊥
Passes casefold c k r db (by_session s u) =
    SignsIn c k r db s u × (changes_state r.method ≡ true → csrf_valid s r.csrf_header ≡ true)
Passes casefold c k r db (by_token t u) =
    (raw : Text) × (bearer casefold (partition r.authorization) ≡ some raw)
    × (token_matches raw ≡ true)
    × (same t.token_hash (k.token_hash raw) ≡ true)
    × (is_some t.revoked_at ≡ false)
    × (r.now < t.expires_at)
    × (get_user db t.user_id ≡ some u)
    × (u.active ≡ true)
    × (u.totp_enabled ≡ true)

abbrev pub answers : Reply Identity → Option Identity
answers (ok who) = some who
answers (http code message) = none

abbrev either : Bool → Handled Identity → Handled Identity → Handled Identity
either b x y = if b then x else y

-- The answer of a handler that refuses under a guard.
unguarded :
    (b : Bool) (who who' : Identity) (x y : AuthDb) (code : ℕ) (message : Text)
    → answers (either b (x, http code message) (y, ok who)).1 ≡ some who'
    → (b ≡ false) × (who ≡ who')
unguarded true who who' x y code message h = ground (arith, h)
unguarded false who who' x y code message h = (refl, ap (λ o. or_else o who) h)

module _ (casefold : Text → Text) (c : Settings) (k : Crypto) (r : Request) (db : AuthDb)
    (who : Identity) where
  through_session-Passes :
      (db1 : AuthDb) (o : Option (AuthSession × User))
      → (get_session c k r (some full) db).1 ≡ o
      → answers (through_session r o db1).1 ≡ some who
      → Passes casefold c k r db who
  through_session-Passes db1 none e h = ground (arith, h)
  through_session-Passes db1 (some (s, u)) e h =
      let (form, this) =
        unguarded (changes_state r.method && not (csrf_valid s r.csrf_header)) (by_session s u) who
          _ _ _ _ h in
      rw (sym this) (get_session-SignsIn c k r db u s e, λ x. ground (arith, form, x))

  through_token-Passes :
      (raw : Option Text) (o : Option (ApiToken × User))
      → bearer casefold (partition r.authorization) ≡ raw
      → token_of_bearer k r raw db ≡ o
      → answers (through_token r o db).1 ≡ some who
      → Passes casefold c k r db who
  through_token-Passes none none b e h = ground (arith, h)
  through_token-Passes none (some _) b e h = ground (arith, e)
  through_token-Passes (some raw) none b e h = ground (arith, h)
  through_token-Passes (some raw) (some (t, u)) b e h =
      let (form, found, fresh, owner, on, enrolled) = get_api_token-valid k r db u raw t e in
      rw (sym (ap (λ o. or_else o who) h))
        (raw, b, form, ground (arith, found), ground (arith, found), fresh, owner, on, enrolled)

  dispatch-token :
      is_open r ≡ false
      → nonempty r.authorization ≡ true
      → nonempty r.cookie ≡ false
      → dispatch casefold c k r db
        ≡ through_token r (token_of_bearer k r (bearer casefold (partition r.authorization)) db) db
  unfolding dispatch
  dispatch-token closed e e' = rw (closed, e, e') refl

  dispatch-session :
      is_open r ≡ false
      → nonempty r.authorization ≡ false
      → dispatch casefold c k r db
        ≡ through_session r
            (get_session c k r (some full) db).1
            (get_session c k r (some full) db).0
  unfolding dispatch
  dispatch-session closed e = rw (closed, e) refl

  -- A request to a path that is not public goes on to its handler only with a session that signs in
  -- (live, full, of its own browser, of an active enrolled account) and, if its method changes
  -- something, the session's form token; or with the API token that its Authorization header bears, by
  -- its hash, not revoked, not expired, and of an active enrolled account.
  pub dispatch-Passes :
      is_open r ≡ false
      → answers (dispatch casefold c k r db).1 ≡ some who
      → Passes casefold c k r db who
  unfolding dispatch
  dispatch-Passes closed h = elim (Bool-cases (nonempty r.authorization)) [
    | inl e ↦ elim (Bool-cases (nonempty r.cookie)) [
      | inl e' ↦ ground (arith, closed, e, e', h)
      | inr e' ↦
          through_token-Passes (bearer casefold (partition r.authorization)) _ refl refl
            (sym (ap (λ (x : Handled Identity). answers x.1) (dispatch-token closed e e')) ∙ h)
    ]
    | inr e ↦
        through_session-Passes (get_session c k r (some full) db).0 _ refl
          (sym (ap (λ (x : Handled Identity). answers x.1) (dispatch-session closed e)) ∙ h)
  ]
