-- ===== src/Auth/Gate.antt =====
-- `AuthenticationMiddleware.dispatch`, `require_session_auth` and `require_roles` of auth.py: what a
-- request passes before its handler.
pub mod Passed
use layerscope.Base.{
  ℕ, ◌-◌, Bool, true, false, not, ◌&&◌, ◌||◌, List, [], ◌∷◌, Option, none, some, ◌==◌, ltb, any,
  member, if◌then◌else◌,
}
use layerscope.Base.Json.{string, array, Items, Fields, end, field}
use layerscope.Base.Table
use layerscope.Base.Text.{Text, text, same, nonempty, one_of, starts_with}
use layerscope.Config.{Settings}
use layerscope.Models.{Time, minutes, User, Role, AuthSession, full, ApiToken}
use layerscope.Auth.{AuthDb, Request, Crypto, ok, http, Handled, put_session, token_key, audit}
use layerscope.Auth.Accounts.{same_role}
use layerscope.Auth.Sessions.{get_session, get_api_token, csrf_valid}

-- PUBLIC_API_PATHS
abbrev pub public_paths : List Text
public_paths =
    text "/api/health"
    ∷ text "/api/auth/status"
    ∷ text "/api/auth/setup"
    ∷ text "/api/auth/activate"
    ∷ text "/api/auth/reenroll-2fa"
    ∷ text "/api/auth/login"
    ∷ text "/api/auth/totp/verify"
    ∷ []

abbrev pub is_open : Request → Bool
is_open r =
    same r.method (text "OPTIONS")
    || not (starts_with r.path (text "/api/"))
    || one_of r.path public_paths

abbrev pub changes_state : Text → Bool
changes_state method = one_of method (text "POST" ∷ text "PUT" ∷ text "PATCH" ∷ text "DELETE" ∷ [])

-- What the middleware leaves in `request.state`.
pub data Identity : Type 0 where
  anonymous : Identity
  by_session : AuthSession → User → Identity
  by_token : ApiToken → User → Identity

-- `authorization.partition(" ")`: the texts before and after the first space, if there is one.
abbrev pub partition : Text → Option (Text × Text)
partition [] = none
partition (c ∷ s) = cut c (partition s)
  where
    cut : ℕ → Option (Text × Text) → Option (Text × Text)
    cut c none = if c == b' ' then some ([], s) else none
    cut c (some (scheme, rest)) = if c == b' ' then some ([], s) else some (c ∷ scheme, rest)

abbrev pub bearer : (Text → Text) → Option (Text × Text) → Option Text
bearer casefold none = none
bearer casefold (some (scheme, raw)) =
    if same (casefold scheme) (text "bearer") && not (member b' ' raw) then some raw else none

abbrev pub token_of_bearer : Crypto → Request → Option Text → AuthDb → Option (ApiToken × User)
token_of_bearer k r none db = none
token_of_bearer k r (some raw) db = get_api_token k r raw db

abbrev pub request_details : Request → Text → Text → Fields
request_details r key value =
    field (text "method") (string r.method)
      (field (text "path") (string r.path) (field key (string value) end))

abbrev pub deny : Request → Text → AuthDb → AuthDb
deny r auth_method db =
    audit (text "authentication") (text "denied") r none
      (request_details r (text "auth_method") auth_method) db

-- `last_seen_at` is written at most once a minute, `last_used_at` once in five.
abbrev pub see_session : Time → AuthSession → AuthDb → AuthDb
see_session now s db =
    if ltb (minutes 1) (now - s.last_seen_at)
    then put_session s.id (λ x. record x { last_seen_at = now }) db
    else db

abbrev pub stale : Time → Option Time → Bool
stale now none = true
stale now (some used) = ltb (minutes 5) (now - used)

abbrev pub use_token : Time → ApiToken → AuthDb → AuthDb
use_token now t db =
    if stale now t.last_used_at
    then record db {
      api_tokens =
          Table.modify token_key t.id (λ (x : ApiToken). record x { last_used_at = some now })
            db.api_tokens;
    }
    else db

abbrev pub through_session : Request → Option (AuthSession × User) → AuthDb → Handled Identity
through_session r none db = (deny r (text "session") db, http 401 (text "Authentication required"))
through_session r (some (s, u)) db =
    if changes_state r.method && not (csrf_valid s r.csrf_header)
    then (
      audit (text "csrf_validation") (text "denied") r (some u.id)
          (field (text "method") (string r.method) (field (text "path") (string r.path) end)) db,
      http 403 (text "CSRF validation failed"),
    )
    else (see_session r.now s db, ok (by_session s u))

abbrev pub through_token : Request → Option (ApiToken × User) → AuthDb → Handled Identity
through_token r none db = (deny r (text "api_token") db, http 401 (text "Authentication required"))
through_token r (some (t, u)) db = (use_token r.now t db, ok (by_token t u))

-- `dispatch`: the identity with which the request goes on to its handler, or the answer.
unfoldable pub dispatch : (Text → Text) → Settings → Crypto → Request → AuthDb → Handled Identity
dispatch casefold c k r db =
    if is_open r
    then (db, ok anonymous)
    else if nonempty r.authorization && nonempty r.cookie
    then (
      audit (text "authentication") (text "denied") r none
          (request_details r (text "reason") (text "ambiguous_credentials")) db,
      http 400 (text "Use either a browser session or a bearer token, not both"),
    )
    else if nonempty r.authorization
    then through_token r (token_of_bearer k r (bearer casefold (partition r.authorization)) db) db
    else let (db1, result) = get_session c k r (some full) db in through_session r result db1

abbrev pub forbid : Request → Option ℕ → Fields → Text → AuthDb → Handled User
forbid r user_id details message db =
    (audit (text "authorization") (text "denied") r user_id details db, http 403 message)

abbrev pub user_of : Identity → Option User
user_of anonymous = none
user_of (by_session s u) = some u
user_of (by_token t u) = some u

abbrev pub id_of : Option User → Option ℕ
id_of none = none
id_of (some u) = some u.id

-- `require_session_auth`
unfoldable pub require_session_auth : Request → Identity → AuthDb → Handled User
require_session_auth r (by_session s u) db = (db, ok u)
require_session_auth r anonymous db =
    forbid r none (request_details r (text "required_auth") (text "browser_session"))
      (text "A signed-in browser session is required") db
require_session_auth r (by_token t u) db =
    forbid r (some u.id) (request_details r (text "required_auth") (text "browser_session"))
      (text "A signed-in browser session is required") db

abbrev pub allowed : List Role → Option User → Bool
allowed roles none = false
allowed roles (some u) = any (same_role u.role) roles

abbrev pub check_role : List Role → Fields → Request → Option User → AuthDb → Handled User
check_role roles details r none db = forbid r none details (text "Insufficient permissions") db
check_role roles details r (some u) db =
    if any (same_role u.role) roles
    then (db, ok u)
    else forbid r (some u.id) details (text "Insufficient permissions") db

-- `require_roles(*roles)`; the names of the roles, sorted, go to the audit event.
unfoldable pub require_roles : List Role → Items → Request → Identity → AuthDb → Handled User
require_roles roles names r who db =
    check_role roles
      (field (text "method") (string r.method)
        (field (text "path") (string r.path) (field (text "required_roles") (array names) end)))
      r (user_of who) db
