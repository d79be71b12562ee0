-- ===== src/Auth/Sessions/Valid.antt =====
-- What `get_session` and `get_api_token` promise of the account they return.
use layerscope.Base.{
  ◌+◌, ◌≡◌, refl, sym, ◌∙◌, ap, ◌<◌, Bool, true, false, not, ◌&&◌, Option, none, some, leb,
  Bool-cases, inl, inr, is_some, if◌then◌else◌, arith, List, [], ◌∷◌,
}
use layerscope.Base.Text.{Text, nonempty, same}
use layerscope.Config.{Settings}
use layerscope.Models.{
  User, AuthSession, AuthLevel, password, mfa_setup, activation, mfa_reenroll, full, ApiToken,
  minutes,
}
use layerscope.Auth.{AuthDb, Request, Crypto, get_user, first}
use layerscope.Auth.Sessions.{
  get_session, found_session, account_of, session_of, lapsed, foreign_agent, level_differs,
  get_api_token, found_token, token_account, token_matches,
}

first-holds : {A : Type 0} (p : A → Bool) (xs : List A) (x : A) → first p xs ≡ some x → p x ≡ true
unfolding first
first-holds p [] x h = ground arith
first-holds p (y ∷ xs) x h = elim (Bool-cases (p y)) [
  | inl e ↦ ground (arith, e, h)
  | inr e ↦ first-holds p xs x ground (arith, e, h)
]

chosen :
    {A : Type 0} (b : Bool) (o : Option A) (v : A)
    → (if b then o else none) ≡ some v
    → (b ≡ true) × (o ≡ some v)
chosen true o v h = (refl, h)
chosen false o v h = ground (arith, h)

not_stopped :
    {A : Type 0} (b : Bool) (o : Option A) (v : A)
    → (if b then none else o) ≡ some v
    → (b ≡ false) × (o ≡ some v)
not_stopped false o v h = (refl, h)
not_stopped true o v h = ground (arith, h)

-- What a session is, at the instant of a request that it signs in.
pub record SignsIn (c : Settings) (k : Crypto) (r : Request) (db : AuthDb) (s : AuthSession)
    (u : User) : Type 0 where
  pub found : session_of k r.cookie s ≡ true
  pub not_expired : r.now < s.expires_at
  pub not_idle : r.now < s.last_seen_at + minutes c.auth_idle_minutes
  pub same_agent : foreign_agent c r s ≡ false
  pub is_full : s.auth_level ≡ full
  pub account : get_user db s.user_id ≡ some u
  pub active : u.active ≡ true
  pub enrolled : u.totp_enabled ≡ true

-- The row that `get_api_token` looks for.
abbrev pub token_of : Crypto → Text → ApiToken → Bool
token_of k raw t = same t.token_hash (k.token_hash raw) && not (is_some t.revoked_at)

module _ (c : Settings) (k : Crypto) (r : Request) (db : AuthDb) (u : User) where
  account-of :
      (s t : AuthSession) (o : Option User)
      → account_of (some full) t o ≡ some (s, u)
      → (t ≡ s) × (o ≡ some u) × (u.active ≡ true) × (u.totp_enabled ≡ true)
  unfolding account_of
  account-of s t none h = ground (arith, h)
  account-of s t (some v) h = ground (arith, h)

  level_full : (l : AuthLevel) → level_differs (some full) l ≡ false → l ≡ full
  level_full password h = ground (arith, h)
  level_full mfa_setup h = ground (arith, h)
  level_full activation h = ground (arith, h)
  level_full mfa_reenroll h = ground (arith, h)
  level_full full h = refl

  -- The answer of `get_session` behind its three guards.
  guarded : {A : Type 0} → Bool → Bool → Bool → Option A → AuthDb → AuthDb → AuthDb × Option A
  guarded a b d o x y =
      if a then (x, none) else if b then (y, none) else if d then (db, none) else (db, o)

  passed :
      {A : Type 0} (a b d : Bool) (o : Option A) (v : A) (x y : AuthDb)
      → (guarded a b d o x y).1 ≡ some v
      → (a ≡ false) × (b ≡ false) × (d ≡ false) × (o ≡ some v)
  unfolding guarded
  passed false false false o v x y h = (refl, refl, refl, h)
  passed true b d o v x y h = ground (arith, h)
  passed false true d o v x y h = ground (arith, h)
  passed false false true o v x y h = ground (arith, h)

  found-session :
      (s t : AuthSession)
      → session_of k r.cookie t ≡ true
      → (found_session c r (some full) (some t) db).1 ≡ some (s, u)
      → SignsIn c k r db s u
  unfolding found_session guarded
  found-session s t hash h =
      let (fresh, agent, level, got) =
        passed (lapsed c r.now (some full) t) (foreign_agent c r t)
          (level_differs (some full) t.auth_level)
          (account_of (some full) t (get_user db t.user_id)) (s, u) _ _ h in
      let (this, found, on, enrolled) = account-of s t (get_user db t.user_id) got in
      rw (sym this) record {
        found = hash;
        not_expired = ground (arith, fresh);
        not_idle = ground (arith, fresh);
        same_agent = agent;
        is_full = level_full t.auth_level level;
        account = found;
        active = on;
        enrolled = enrolled;
      }

  get_session-found :
      nonempty r.cookie ≡ true
      → get_session c k r (some full) db
        ≡ found_session c r (some full) (first (session_of k r.cookie) db.sessions) db
  unfolding get_session
  get_session-found e = rw e refl

  of-found :
      (s : AuthSession) (o : Option AuthSession)
      → first (session_of k r.cookie) db.sessions ≡ o
      → (found_session c r (some full) o db).1 ≡ some (s, u)
      → SignsIn c k r db s u
  unfolding found_session
  of-found s none e h = ground (arith, h)
  of-found s (some t) e h =
      found-session s t (first-holds (session_of k r.cookie) db.sessions t e) h

  -- A session that `get_session` accepts at level full has the hash of the cookie, is not revoked,
  -- expired or idle, comes from its own user agent where the settings bind it, and is of an active
  -- account that has enrolled its authenticator.
  pub get_session-SignsIn :
      (s : AuthSession) → (get_session c k r (some full) db).1 ≡ some (s, u) → SignsIn c k r db s u
  unfolding get_session
  get_session-SignsIn s h = elim (Bool-cases (nonempty r.cookie)) [
    | inl e ↦
        of-found s (first (session_of k r.cookie) db.sessions) refl
          (sym (ap (λ (x : AuthDb × Option (AuthSession × User)). x.1) (get_session-found e)) ∙ h)
    | inr e ↦ ground (arith, e, h)
  ]

module _ (k : Crypto) (r : Request) (db : AuthDb) (u : User) where
  token-account :
      (s t : ApiToken) (o : Option User)
      → token_account t o ≡ some (s, u)
      → (t ≡ s) × (o ≡ some u) × (u.active ≡ true) × (u.totp_enabled ≡ true)
  unfolding token_account
  token-account s t none h = ground (arith, h)
  token-account s t (some v) h = ground (arith, h)

  found-token :
      (s : ApiToken) (o : Option ApiToken)
      → found_token r o db ≡ some (s, u)
      → (o ≡ some s)
        × (r.now < s.expires_at)
        × (get_user db s.user_id ≡ some u)
        × (u.active ≡ true)
        × (u.totp_enabled ≡ true)
  unfolding found_token
  found-token s none h = ground (arith, h)
  found-token s (some t) h =
      let (fresh, got) = not_stopped (leb t.expires_at r.now) _ (s, u) h in
      let (this, owner, on, enrolled) = token-account s t (get_user db t.user_id) got in
      rw (sym this) (refl, ground (arith, fresh), owner, on, enrolled)

  -- A token that `get_api_token` accepts has the form of a token and the hash of the presented
  -- text, is not revoked or expired, and is of an active account that has enrolled its
  -- authenticator.
  pub get_api_token-valid :
      (raw : Text) (t : ApiToken)
      → get_api_token k r raw db ≡ some (t, u)
      → (token_matches raw ≡ true)
        × (token_of k raw t ≡ true)
        × (r.now < t.expires_at)
        × (get_user db t.user_id ≡ some u)
        × (u.active ≡ true)
        × (u.totp_enabled ≡ true)
  unfolding get_api_token
  get_api_token-valid raw t h =
      let (form, got) = chosen (token_matches raw) _ (t, u) h in
      let (found, fresh, owner, on, enrolled) =
        found-token t (first (token_of k raw) db.api_tokens) got in
      (form, first-holds (token_of k raw) db.api_tokens t found, fresh, owner, on, enrolled)
