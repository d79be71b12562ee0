-- ===== src/Tokens.antt =====
-- backend/app/api_tokens.py: the API tokens of the signed-in user.
use layerscope.Base.{
  ℕ, ◌+◌, ◌*◌, ◌≤◌, Bool, not, ◌&&◌, List, ◌∷◌, ◌++◌, Option, none, some, ◌==◌, leb, ltb, length,
  take, select, is_some, if◌then◌else◌, arith,
}
use layerscope.Base.Json.{string, end, field}
use layerscope.Base.Table
use layerscope.Base.Text.{Text, text, strip, nonempty, decimal}
use layerscope.Config.{Settings}
use layerscope.Models.{Time, hours, User, ApiToken}
use layerscope.Auth.{
  AuthDb, Request, Draw, Crypto, ok, Handled, refuse, first, audit, token_key, number_detail,
}

pub data TokenStatus : Type 0 where
  revoked expired active : TokenStatus

-- The status that `payload` shows.
unfoldable pub token_status : Time → ApiToken → TokenStatus
token_status now t =
    if is_some t.revoked_at then revoked else if leb t.expires_at now then expired else active

-- The user's tokens that are not revoked and have not expired.
abbrev pub in_use : ℕ → Time → ApiToken → Bool
in_use user_id now t = t.user_id == user_id && not (is_some t.revoked_at) && ltb now t.expires_at

unfoldable pub count_tokens : ℕ → Time → List ApiToken → ℕ
count_tokens user_id now tokens = length (select (in_use user_id now) tokens)

-- `expires_in_days` is between 1 and 365 by the declaration of the request body.
pub record ApiTokenCreate : Type 0 where
  pub name : Text
  pub expires_in_days : ℕ

abbrev pub new_token : Crypto → Request → Draw → User → Text → ℕ → ApiToken
new_token k r d actor name days =
    let raw = text "lsp_" ++ d.raw in
    record {
      id = d.new_id;
      user_id = actor.id;
      name = name;
      token_hash = k.token_hash raw;
      token_prefix = take 12 raw;
      created_at = r.now;
      expires_at = r.now + hours (days * 24);
      last_used_at = none;
      revoked_at = none;
    }

-- `create_api_token`; `isoformat` writes an instant.
unfoldable pub create_api_token :
    (Time → Text)
    → Settings
    → Crypto
    → Request
    → Draw
    → User
    → ApiTokenCreate
    → AuthDb
    → Handled Text
create_api_token isoformat c k r d actor body db =
    let name = strip body.name in
    let t = new_token k r d actor name body.expires_in_days in
    if not (nonempty name)
    then refuse 400 (text "Token name cannot be blank") db
    else if leb c.auth_max_api_tokens_per_user (count_tokens actor.id r.now db.api_tokens)
    then refuse 409
        (text "Revoke an existing token before creating more than "
          ++ decimal c.auth_max_api_tokens_per_user)
        db
    else (
      audit (text "api_token_create") (text "success") r (some actor.id)
          (number_detail (text "api_token_id") t.id (
            field (text "name") (string name)
              (field (text "expires_at") (string (isoformat t.expires_at)) end)))
          (record db { api_tokens = t ∷ db.api_tokens }),
      ok (text "lsp_" ++ d.raw),
    )

abbrev pub revoke_found : Request → User → Option ApiToken → AuthDb → Handled (Unit {0})
revoke_found r actor none db = refuse 404 (text "API token not found") db
revoke_found r actor (some t) db = if is_some t.revoked_at then (db, ok tt) else (
  audit (text "api_token_revoke") (text "success") r (some actor.id)
      (number_detail (text "api_token_id") t.id (field (text "name") (string t.name) end))
      (record db {
        api_tokens =
            Table.modify token_key t.id (λ (x : ApiToken). record x { revoked_at = some r.now })
              db.api_tokens;
      }),
  ok tt,
)

-- `revoke_api_token`
unfoldable pub revoke_api_token : Request → User → ℕ → AuthDb → Handled (Unit {0})
revoke_api_token r actor token_id db =
    revoke_found r actor
      (first (λ (t : ApiToken). t.id == token_id && t.user_id == actor.id) db.api_tokens) db

-- Creating a token, whether it is granted or refused, leaves the user's tokens in use at or under
-- the settings' maximum when they were.
pub create_api_token-bounded :
    (isoformat : Time → Text) (c : Settings) (k : Crypto) (r : Request) (d : Draw) (actor : User)
    (body : ApiTokenCreate) (db : AuthDb)
    → count_tokens actor.id r.now db.api_tokens ≤ c.auth_max_api_tokens_per_user
    → count_tokens actor.id r.now (create_api_token isoformat c k r d actor body db).0.api_tokens
      ≤ c.auth_max_api_tokens_per_user
unfolding create_api_token count_tokens audit
create_api_token-bounded isoformat c k r d actor body db h = ground (arith, h)
