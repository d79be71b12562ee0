-- ===== src/Auth.antt =====
-- backend/app/auth.py: the tables of the accounts, what a request carries, and the ciphers and
-- random values, which are not the program's. A handler runs at one instant, `now`; what it draws
-- at random comes with the request.
pub mod Accounts
pub mod Sessions
pub mod Admins
pub mod Totp
pub mod Login
pub mod Lockout
pub mod Enroll
pub mod Verify
pub mod Gate
use layerscope.Base.{
  ℕ, ◌+◌, Bool, true, false, not, ◌&&◌, ◌||◌, List, [], ◌∷◌, ◌++◌, Option, none, some, ◌==◌, select,
  take, if◌then◌else◌,
}
use layerscope.Base.Json.{
  Json, null, string, number, Fields, end, field, object, dumps, ascii_style,
}
use layerscope.Base.Table
use layerscope.Base.Text.{Text, text, nonempty, decimal}
use layerscope.Config.{Settings}
use layerscope.Models.{Time, hours, User, AuthSession, ApiToken, RecoveryCode, AuditEvent}

pub record AuthDb : Type 0 where
  pub users : List User
  pub sessions : List AuthSession
  pub api_tokens : List ApiToken
  pub recovery_codes : List RecoveryCode
  pub audit_events : List AuditEvent

-- The parts of a request that the handlers read, and the values drawn for it.
pub record Request : Type 0 where
  pub now : Time
  pub method : Text
  pub path : Text
  pub ip_address : Text
  pub user_agent : Text
  pub cookie : Text
  pub authorization : Text
  pub csrf_header : Text
  pub request_id : Text

-- `secrets.token_urlsafe`, `pyotp.random_base32`, `generate_recovery_codes` and the key that the
-- database gives to a new row.
pub record Draw : Type 0 where
  pub raw : Text
  pub csrf : Text
  pub secret : Text
  pub codes : List Text
  pub new_id : ℕ

-- hashlib, argon2, hmac with the local key, Fernet and pyotp. `totp_at` is the code of an encrypted
-- secret at a Unix time.
pub record Crypto : Type 0 where
  pub token_hash : Text → Text
  pub hash_password : Text → Text
  pub verify_password : Text → Text → Bool
  pub needs_rehash : Text → Bool
  pub recovery_hash : Text → Text
  pub encrypt_secret : Text → Text
  pub totp_at : Text → ℕ → Text
  pub dummy_password_hash : Text

-- What a handler answers: a value, or an HTTPException.
pub data Reply {ℓ} (A : Type ℓ) : Type ℓ where
  ok : A → Reply A
  http : ℕ → Text → Reply A

abbrev pub user_key : User → ℕ
user_key u = u.id

abbrev pub session_key : AuthSession → ℕ
session_key s = s.id

abbrev pub token_key : ApiToken → ℕ
token_key t = t.id

abbrev pub code_key : RecoveryCode → ℕ
code_key c = c.id

abbrev pub get_user : AuthDb → ℕ → Option User
get_user db i = Table.get user_key i db.users

-- The row is written with `onupdate=now`.
abbrev pub put_user : Time → ℕ → (User → User) → AuthDb → AuthDb
put_user now i f db = record db {
  users = Table.modify user_key i (λ u. record (f u) { updated_at = now }) db.users;
}

abbrev pub put_session : ℕ → (AuthSession → AuthSession) → AuthDb → AuthDb
put_session i f db = record db { sessions = Table.modify session_key i f db.sessions }

-- The first row that satisfies a test: `db.scalar(select(…).where(…))`.
unfoldable pub first {ℓ} : {A : Type ℓ} → (A → Bool) → List A → Option A
first p [] = none
first p (x ∷ xs) = if p x then some x else first p xs

-- `details[key] = value`
abbrev pub with_id : Text → Fields → Fields
with_id [] fs = fs
with_id (c ∷ t) end = field (text "request_id") (string (c ∷ t)) end
with_id (c ∷ t) (field k v fs) = field k v (with_id (c ∷ t) fs)

-- `audit(…)`
unfoldable pub audit : Text → Text → Request → Option ℕ → Fields → AuthDb → AuthDb
audit action outcome request user_id details db = record db {
  audit_events =
      record {
        user_id = user_id;
        action = action;
        outcome = outcome;
        ip_address = request.ip_address;
        details = take 4000 (dumps ascii_style (object (with_id request.request_id details)));
        created_at = request.now;
      }
      ∷ db.audit_events;
}

abbrev pub detail : Text → Text → Fields
detail k v = field k (string v) end

abbrev pub number_detail : Text → ℕ → Fields → Fields
number_detail k n fs = field k (number (decimal n)) fs

-- The database after a handler, and its answer. An error that precedes every commit leaves the
-- database as it was.
abbrev pub Handled : Type 0 → Type 0
Handled A = AuthDb × Reply A

abbrev pub refuse : {A : Type 0} → ℕ → Text → AuthDb → Handled A
refuse code message db = (db, http code message)

-- `new_activation_code`: the hash that is stored and the end of its life.
abbrev pub activation_hash : Crypto → Draw → Text
activation_hash k d = k.token_hash d.raw

abbrev pub activation_expiry : Settings → Request → Time
activation_expiry c r = r.now + hours c.auth_activation_hours

-- `delete(RecoveryCode).where(user_id == …)`
abbrev pub drop_codes : ℕ → AuthDb → AuthDb
drop_codes user_id db = record db {
  recovery_codes = select (λ (c : RecoveryCode). not (c.user_id == user_id)) db.recovery_codes;
}

-- A step that can raise, and what follows it.
abbrev pub on_ok : {A B : Type 0} → Reply A → AuthDb → (A → Handled B) → Handled B
on_ok (ok a) db k = k a
on_ok (http code message) db k = (db, http code message)
