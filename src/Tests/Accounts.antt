-- ===== src/Tests/Accounts.antt =====
-- Runs of the accounts: sign-in, tokens, and the changes of an administrator.
use layerscope.Base.{
  ℕ, ◌≤◌, ◌<◌, ◌≡◌, refl, true, false, [], ◌∷◌, none, some, length, select, arith, all,
}
use layerscope.Base.Table
use layerscope.Base.Text.{Text, same, text, starts_with, one_of, strip}
use layerscope.Models.{hours, full, admin, User}
use layerscope.Auth.{AuthDb, first, get_user, Request}
use layerscope.Auth.Admins.{HasAdmin, count_admins}
use layerscope.Auth.Sessions.{get_session, get_api_token, create_session, owned, token_matches}
use layerscope.Auth.Sessions.Bounds.{create_session-bounded}
use layerscope.Auth.Sessions.Valid.{SignsIn, get_session-SignsIn, get_api_token-valid, token_of}
use layerscope.Auth.Totp.{verify_totp, verify_totp-fresh, Follows, Hit, tried}
use layerscope.Lifecycle.{start, next, perform, call_remove, call_update_user}
use layerscope.Lifecycle.Admins.{Reach-HasAdmin}
use layerscope.Tokens.{create_api_token, count_tokens, create_api_token-bounded}
use layerscope.Users.{UserUpdate}
use layerscope.Auth.Gate.{dispatch, is_open, by_session}
use layerscope.Auth.Gate.Passed.{Passes, answers, dispatch-Passes}
use layerscope.Auth.Lockout.{Counted, Unlocked, under, opened, login-Unlocked}
use layerscope.Auth.Login.{Credentials, login, by_name}
use layerscope.Tests.Samples.{
  same_text, sample_settings, sample_crypto, sample_request, sample_draw, sample_db, sample_session,
  sample_token, sample_raw, sample_code, user,
}

no_date : ℕ → Text
no_date t = []

create_session-bounded_example :
    length (
      select
        (owned 1)
        (create_session sample_settings sample_crypto sample_request sample_draw 1 full
          (hours 1)
          sample_db).sessions)
    ≤ 2
create_session-bounded_example =
    create_session-bounded sample_settings sample_crypto sample_request sample_draw 1 full (hours 1)
      sample_db (omega arith)

signed_in :
    (get_session sample_settings sample_crypto sample_request (some full) sample_db).1
    ≡ some (sample_session 1, user 1 admin true)
unfolding get_session first same Table.get
signed_in = refl

get_session-SignsIn_example :
    SignsIn sample_settings sample_crypto sample_request sample_db
      (sample_session 1)
      (user 1 admin true)
get_session-SignsIn_example =
    get_session-SignsIn sample_settings sample_crypto sample_request sample_db (user 1 admin true)
      (sample_session 1) signed_in

token_accepted :
    get_api_token sample_crypto sample_request sample_raw sample_db
    ≡ some (sample_token, user 1 admin true)
unfolding get_api_token token_matches starts_with text first same Table.get
token_accepted = refl

get_api_token-valid_example :
    (token_matches sample_raw ≡ true)
    × (token_of sample_crypto sample_raw sample_token ≡ true)
    × (120000000 < 900000000)
    × (get_user sample_db 1 ≡ some (user 1 admin true))
    × (true ≡ true)
    × (true ≡ true)
get_api_token-valid_example =
    get_api_token-valid sample_crypto sample_request sample_db (user 1 admin true) sample_raw
      sample_token token_accepted

code_accepted : verify_totp sample_crypto 120000000 (user 1 admin true) sample_code ≡ some 3
unfolding verify_totp same
code_accepted = refl

verify_totp-fresh_example :
    Follows (some 1) 3
    × ((secret : Text) × (some (b's' ∷ []) ≡ some secret)
        × Hit sample_crypto secret sample_code 3 (tried 120000000))
verify_totp-fresh_example =
    verify_totp-fresh sample_crypto 120000000 (user 1 admin true) sample_code 3 code_accepted

create_api_token-bounded_example :
    count_tokens 1 120000000
      (create_api_token no_date sample_settings sample_crypto sample_request sample_draw
        (user 1 admin true)
        (record { name = b'n' ∷ []; expires_in_days = 90 })
        sample_db).0.api_tokens
    ≤ 2
unfolding count_tokens
create_api_token-bounded_example =
    create_api_token-bounded no_date sample_settings sample_crypto sample_request sample_draw
      (user 1 admin true) (record { name = b'n' ∷ []; expires_in_days = 90 }) sample_db
      (omega arith)

-- The second account is removed, and then the first asks to disable itself.
abbrev second_removed : AuthDb
second_removed =
    perform same_text no_date sample_settings sample_crypto sample_request sample_draw
      (call_remove (user 1 admin true) 2) sample_db

abbrev disable : UserUpdate
disable = record { display_name = none; role = none; active = some false }

abbrev first_asks : AuthDb
first_asks =
    perform same_text no_date sample_settings sample_crypto sample_request sample_draw
      (call_update_user (user 1 admin true) 1 disable) second_removed

sample-HasAdmin : HasAdmin sample_db
unfolding count_admins
sample-HasAdmin = omega arith

Reach-HasAdmin_example : HasAdmin first_asks
Reach-HasAdmin_example =
    Reach-HasAdmin same_text no_date sample_settings sample_crypto sample_db first_asks
      sample-HasAdmin
      (next sample_db second_removed sample_request sample_draw
        (call_update_user (user 1 admin true) 1 disable)
        (next sample_db sample_db sample_request sample_draw (call_remove (user 1 admin true) 2)
          (start sample_db)))

abbrev api_request : Request
api_request = record sample_request { path = text "/api/jobs"; method = text "GET" }

closed_path : is_open api_request ≡ false
unfolding text same starts_with one_of
closed_path = refl

passed :
    answers (dispatch same_text sample_settings sample_crypto api_request sample_db).1
    ≡ some (by_session (sample_session 1) (user 1 admin true))
unfolding dispatch text same starts_with one_of get_session first Table.get
passed = refl

dispatch-Passes_example :
    Passes same_text sample_settings sample_crypto api_request sample_db
      (by_session (sample_session 1) (user 1 admin true))
dispatch-Passes_example =
    dispatch-Passes same_text sample_settings sample_crypto api_request sample_db
      (by_session (sample_session 1) (user 1 admin true)) closed_path passed

abbrev first_credentials : Credentials
first_credentials = record { username = b'u' ∷ 1 ∷ []; password = b'p' ∷ [] }

login-Unlocked_example :
    (opened
          (login same_text sample_settings sample_crypto sample_request sample_draw
            first_credentials sample_db).1
        ≡ true
      → Unlocked same_text sample_settings sample_crypto sample_request sample_draw sample_db
          (b'p' ∷ [])
          (first (by_name (same_text (strip (b'u' ∷ 1 ∷ [])))) sample_db.users))
    × (all
          (under sample_settings)
          (login same_text sample_settings sample_crypto sample_request sample_draw
            first_credentials sample_db).0.users
        ≡ true)
    × ((u : User)
        → first (by_name (same_text (strip (b'u' ∷ 1 ∷ [])))) sample_db.users ≡ some u
        → get_user sample_db u.id ≡ some u
        → opened
            (login same_text sample_settings sample_crypto sample_request sample_draw
              first_credentials sample_db).1
          ≡ false
        → Counted same_text sample_settings sample_crypto sample_request sample_draw sample_db u (
            get_user
              (login same_text sample_settings sample_crypto sample_request sample_draw
                first_credentials sample_db).0
              u.id))
login-Unlocked_example =
    login-Unlocked same_text sample_settings sample_crypto sample_request sample_draw sample_db
      first_credentials (omega arith) refl
