-- ===== src/Auth/Accounts.antt =====
-- `normalize_username`, `validate_password` and the role tests of auth.py.
use layerscope.Base.{
  ℕ, Bool, true, false, ◌&&◌, ◌||◌, List, [], ◌∷◌, ◌==◌, ltb, leb, all, length, if◌then◌else◌,
}
use layerscope.Base.Text.{Text, text, strip, one_of, contains}
use layerscope.Models.{Role, viewer, operator, admin}
use layerscope.Auth.{Reply, ok, http}

-- One character of USERNAME_PATTERN: [a-zA-Z0-9._-]
unfoldable pub username_char : ℕ → Bool
username_char c =
    (leb b'a' c && leb c b'z')
    || (leb b'A' c && leb c b'Z')
    || (leb b'0' c && leb c b'9')
    || c == b'.'
    || c == b'_'
    || c == b'-'

unfoldable pub username_matches : Text → Bool
unfolding username_char
username_matches s = leb 3 (length s) && leb (length s) 64 && all username_char s

abbrev pub common_passwords : List Text
common_passwords =
    text "password"
    ∷ text "password123"
    ∷ text "admin123"
    ∷ text "qwerty123"
    ∷ text "letmein123"
    ∷ text "changeme123"
    ∷ text "trivydashboard"
    ∷ text "layerscope"
    ∷ []

module _ (casefold : Text → Text) where
  unfoldable pub normalize_username : Text → Reply Text
  normalize_username username =
      let value = casefold (strip username) in
      if username_matches value
      then ok value
      else http 400 (
          text
            "Username must be 3-64 characters using letters, numbers, dot, underscore, or hyphen")

  unfoldable pub validate_password : Text → Text → Reply (Unit {0})
  validate_password password username =
      let lowered = casefold password in
      if ltb (length password) 12 || ltb 128 (length password)
      then http 400 (text "Password must be between 12 and 128 characters")
      else if one_of lowered common_passwords || contains username lowered
      then http 400 (text "Choose a less predictable password that does not contain the username")
      else ok tt

abbrev pub same_role : Role → Role → Bool
same_role viewer viewer = true
same_role operator operator = true
same_role admin admin = true
same_role _ _ = false

abbrev pub is_admin : Role → Bool
is_admin viewer = false
is_admin operator = false
is_admin admin = true
