-- ===== src/Auth/Sessions.antt =====
-- `create_session`, `get_session`, `get_api_token`, `csrf_valid` and `revoke_credentials`.
pub mod Bounds
pub mod Valid
use layerscope.Base.{
  ℕ, ◌+◌, ◌-◌, ◌≤◌, ◌≡◌, refl, arith, Bool-cases, inl, inr, Bool, true, false, not, ◌&&◌, ◌||◌,
  List, [], ◌∷◌, Option, none, some, ◌==◌, ltb, leb, length, take, drop, select, member, is_some,
  if◌then◌else◌, map,
}
use layerscope.Base.Text.{Text, text, same, nonempty, starts_with}
use layerscope.Config.{Settings}
use layerscope.Models.{
  Time, minutes, User, AuthSession, AuthLevel, password, mfa_setup, activation, mfa_reenroll, full,
  ApiToken,
}
use layerscope.Auth.{AuthDb, Request, Draw, Crypto, get_user, put_session, first}

-- A session that no deletion by time or revocation removes.
abbrev pub is_live : Time → AuthSession → Bool
is_live now s = ltb now s.expires_at && not (is_some s.revoked_at)

-- `order_by(AuthSession.created_at.desc(), AuthSession.id.desc())`
abbrev pub newer : AuthSession → AuthSession → Bool
newer a b = if a.created_at == b.created_at then leb b.id a.id else ltb b.created_at a.created_at

insert_newest : AuthSession → List AuthSession → List AuthSession
insert_newest s [] = s ∷ []
insert_newest s (r ∷ t) = if newer s r then s ∷ r ∷ t else r ∷ insert_newest s t

unfoldable pub by_newest : List AuthSession → List AuthSession
unfolding insert_newest
by_newest [] = []
by_newest (s ∷ t) = insert_newest s (by_newest t)

abbrev pub session_ids : List AuthSession → List ℕ
session_ids [] = []
session_ids (s ∷ t) = s.id ∷ session_ids t

abbrev pub owned : ℕ → AuthSession → Bool
owned user_id s = s.user_id == user_id

-- The sessions after the two deletions of `create_session`.
unfoldable pub prune_sessions : Settings → ℕ → Time → List AuthSession → List AuthSession
unfolding by_newest
prune_sessions c user_id now sessions =
    let kept = select (λ (s : AuthSession). not (owned user_id s) || is_live now s) sessions in
    let active_ids = session_ids (by_newest (select (owned user_id) kept)) in
    let dropped = drop (c.auth_max_sessions_per_user - 1) active_ids in
    select (λ (s : AuthSession). not (member s.id dropped)) kept

unfoldable pub create_session :
    Settings → Crypto → Request → Draw → ℕ → AuthLevel → Time → AuthDb → AuthDb
unfolding prune_sessions
create_session c k r d user_id level lifetime db = record db {
  sessions =
      record {
        id = d.new_id;
        token_hash = k.token_hash d.raw;
        user_id = user_id;
        csrf_token = d.csrf;
        auth_level = level;
        failed_attempts = 0;
        created_at = r.now;
        last_seen_at = r.now;
        expires_at = r.now + lifetime;
        revoked_at = none;
        ip_address = r.ip_address;
        user_agent = take 300 r.user_agent;
      }
      ∷ prune_sessions c user_id r.now db.sessions;
}

abbrev pub same_level : AuthLevel → AuthLevel → Bool
same_level password password = true
same_level mfa_setup mfa_setup = true
same_level activation activation = true
same_level mfa_reenroll mfa_reenroll = true
same_level full full = true
same_level _ _ = false

abbrev pub wants_full : Option AuthLevel → Bool
wants_full none = false
wants_full (some l) = same_level l full

abbrev pub revoke : Time → AuthSession → AuthSession
revoke now s = record s { revoked_at = some now }

-- The row with the hash of the cookie that is not revoked.
abbrev pub session_of : Crypto → Text → AuthSession → Bool
session_of k raw s = same s.token_hash (k.token_hash raw) && not (is_some s.revoked_at)

-- `expires_at <= now or (required_level == "full" and last_seen_at + idle <= now)`
abbrev pub lapsed : Settings → Time → Option AuthLevel → AuthSession → Bool
lapsed c now required s =
    leb s.expires_at now
    || (wants_full required && leb (s.last_seen_at + minutes c.auth_idle_minutes) now)

abbrev pub foreign_agent : Settings → Request → AuthSession → Bool
foreign_agent c r s =
    c.auth_bind_user_agent
    && nonempty s.user_agent
    && not (same s.user_agent (take 300 r.user_agent))

abbrev pub level_differs : Option AuthLevel → AuthLevel → Bool
level_differs none l = false
level_differs (some required) l = not (same_level l required)

-- The last test: the account of the session.
account_of : Option AuthLevel → AuthSession → Option User → Option (AuthSession × User)
account_of required s none = none
account_of required s (some u) =
    if wants_full required && (not u.active || not u.totp_enabled) then none else some (s, u)

found_session :
    Settings
    → Request
    → Option AuthLevel
    → Option AuthSession
    → AuthDb
    → AuthDb × Option (AuthSession × User)
unfolding account_of
found_session c r required none db = (db, none)
found_session c r required (some s) db =
    if lapsed c r.now required s
    then (put_session s.id (revoke r.now) db, none)
    else if foreign_agent c r s
    then (put_session s.id (revoke r.now) db, none)
    else if level_differs required s.auth_level
    then (db, none)
    else (db, account_of required s (get_user db s.user_id))

unfoldable pub get_session :
    Settings → Crypto → Request → Option AuthLevel → AuthDb → AuthDb × Option (AuthSession × User)
unfolding found_session
get_session c k r required db =
    if nonempty r.cookie
    then found_session c r required (first (session_of k r.cookie) db.sessions) db
    else (db, none)

-- API_TOKEN_PATTERN: lsp_[A-Za-z0-9_-]{43}
abbrev pub token_char : ℕ → Bool
token_char c =
    (leb b'a' c && leb c b'z')
    || (leb b'A' c && leb c b'Z')
    || (leb b'0' c && leb c b'9')
    || c == b'_'
    || c == b'-'

abbrev pub every : (ℕ → Bool) → Text → Bool
every p [] = true
every p (c ∷ s) = p c && every p s

unfoldable pub token_matches : Text → Bool
token_matches s = starts_with s (text "lsp_") && length s == 47 && every token_char (drop 4 s)

token_account : ApiToken → Option User → Option (ApiToken × User)
token_account t none = none
token_account t (some u) = if not u.active || not u.totp_enabled then none else some (t, u)

found_token : Request → Option ApiToken → AuthDb → Option (ApiToken × User)
unfolding token_account
found_token r none db = none
found_token r (some t) db =
    if leb t.expires_at r.now then none else token_account t (get_user db t.user_id)

unfoldable pub get_api_token : Crypto → Request → Text → AuthDb → Option (ApiToken × User)
unfolding found_token
get_api_token k r raw db =
    if token_matches raw
    then found_token r
        (first
          (λ (t : ApiToken). same t.token_hash (k.token_hash raw) && not (is_some t.revoked_at))
          db.api_tokens)
        db
    else none

-- `csrf_valid`
unfoldable pub csrf_valid : AuthSession → Text → Bool
csrf_valid s supplied = nonempty supplied && same s.csrf_token supplied

-- `revoke_credentials` of users.py, and the same two statements of the enrollment handlers.
abbrev pub revoke_token : ℕ → Time → ApiToken → ApiToken
revoke_token user_id now t =
    if t.user_id == user_id && not (is_some t.revoked_at)
    then record t { revoked_at = some now }
    else t

unfoldable pub revoke_credentials : ℕ → Time → AuthDb → AuthDb
revoke_credentials user_id now db = record db {
  sessions = select (λ (s : AuthSession). not (owned user_id s)) db.sessions;
  api_tokens = map (revoke_token user_id now) db.api_tokens;
}

users-found_session :
    (c : Settings) (r : Request) (required : Option AuthLevel) (o : Option AuthSession)
    (db : AuthDb)
    → (found_session c r required o db).0.users ≡ db.users
unfolding found_session
users-found_session c r required none db = refl
users-found_session c r required (some s) db = ground arith

pub users-get_session :
    (c : Settings) (k : Crypto) (r : Request) (required : Option AuthLevel) (db : AuthDb)
    → (get_session c k r required db).0.users ≡ db.users
unfolding get_session
users-get_session c k r required db = elim (Bool-cases (nonempty r.cookie)) [
  | inl e ↦ rw e (users-found_session c r required _ db)
  | inr e ↦ rw e refl
]
