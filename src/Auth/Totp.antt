-- ===== src/Auth/Totp.antt =====
-- `verify_totp` of auth.py. The Unix time is the request's instant in whole seconds, and a code is
-- ASCII text.
use layerscope.Base.{
  ℕ, ◌+◌, ◌-◌, ◌/◌, ◌≤◌, ◌<◌, ◌≡◌, refl, ◌⊎◌, Bool, true, false, not, ◌&&◌, ◌||◌, List, [], ◌∷◌,
  Option, none, some, ◌==◌, leb, length, all, if◌then◌else◌, arith, inl, inr,
}
use layerscope.Base.Text.{Text, same, nonempty}
use layerscope.Models.{Time, User}
use layerscope.Auth.{Crypto}

abbrev pub is_digit : ℕ → Bool
is_digit c = leb b'0' c && leb c b'9'

abbrev pub unix_seconds : Time → ℕ
unix_seconds now = now / 1000000

abbrev pub newer_step : Option ℕ → ℕ → Option ℕ
newer_step none step = some step
newer_step (some last) step = if leb step last then none else some step

abbrev pub match_step : Crypto → Option ℕ → Text → Text → List ℕ → Option ℕ
match_step k last secret code [] = none
match_step k last secret code (t ∷ ts) =
    let rest = match_step k last secret code ts in
    if same (k.totp_at secret t) code then newer_step last (t / 30) else rest

abbrev pub check_secret : Crypto → Time → Option ℕ → Text → Option Text → Option ℕ
check_secret k now last code none = none
check_secret k now last code (some secret) =
    let current = unix_seconds now in
    if not (nonempty secret) || not (all is_digit code) || not (length code == 6)
    then none
    else match_step k last secret code ((current - 30) ∷ current ∷ (current + 30) ∷ [])

-- `verify_totp`: the step of the matching code, which is newer than the last one used.
unfoldable pub verify_totp : Crypto → Time → User → Text → Option ℕ
verify_totp k now user code = check_secret k now user.last_totp_step code user.totp_secret_encrypted

-- A step that comes after the last one used.
abbrev pub Follows : Option ℕ → ℕ → Type 0
Follows none step = 0 ≤ step
Follows (some last) step = last < step

newer_step-Follows :
    (last : Option ℕ) (t step : ℕ) → newer_step last t ≡ some step → (step ≡ t) × Follows last step
newer_step-Follows none t step e = ground (arith, e)
newer_step-Follows (some l) t step e = ground (arith, e)

branch :
    {A : Type 0} (b : Bool) (x y : Option A) (v : A)
    → (if b then x else y) ≡ some v
    → ((b ≡ true) × (x ≡ some v)) ⊎ (y ≡ some v)
branch true x y v e = inl (refl, e)
branch false x y v e = inr e

-- The step of an instant that is tried and gives the code.
pub data Hit (k : Crypto) (secret code : Text) (step : ℕ) : List ℕ → Type 0 where
  here :
      (t : ℕ) (ts : List ℕ)
      → same (k.totp_at secret t) code ≡ true
      → step ≡ t / 30
      → Hit k secret code step (t ∷ ts)
  there : (t : ℕ) (ts : List ℕ) → Hit k secret code step ts → Hit k secret code step (t ∷ ts)

module _ (k : Crypto) (last : Option ℕ) (secret code : Text) (step : ℕ) where
  match_step-Hit :
      (ts : List ℕ)
      → match_step k last secret code ts ≡ some step
      → Follows last step × Hit k secret code step ts
  match_step-Hit [] e = ground (arith, e)
  match_step-Hit (t ∷ ts) e =
      elim (branch (same (k.totp_at secret t) code) (newer_step last (t / 30)) _ step e) [
        | inl (hit, new) ↦
            let (at, follows) = newer_step-Follows last (t / 30) step new in
            (follows, here t ts hit at)
        | inr rest ↦ let (follows, hit) = match_step-Hit ts rest in (follows, there t ts hit)
      ]

-- The instants that `verify_totp` tries.
abbrev pub tried : Time → List ℕ
tried now = (unix_seconds now - 30) ∷ unix_seconds now ∷ (unix_seconds now + 30) ∷ []

guarded-some :
    {A : Type 0} (b : Bool) (x : Option A) (v : A)
    → (if b then none else x) ≡ some v
    → (b ≡ false) × (x ≡ some v)
guarded-some false x v e = (refl, e)
guarded-some true x v e = ground (arith, e)

checked :
    (k : Crypto) (now : Time) (last : Option ℕ) (code : Text) (o : Option Text) (step : ℕ)
    → check_secret k now last code o ≡ some step
    → Follows last step × ((secret : Text) × (o ≡ some secret) × Hit k secret code step (tried now))
checked k now last code none step e = ground (arith, e)
checked k now last code (some secret) step e =
    let (_, found) =
      guarded-some (not (nonempty secret) || not (all is_digit code) || not (length code == 6)) _
        step e in
    let (follows, hit) = match_step-Hit k last secret code step (tried now) found in
    (follows, (secret, refl, hit))

-- An accepted code is the account's own at one of the three instants tried, and its step comes
-- after the last step that the account used.
pub verify_totp-fresh :
    (k : Crypto) (now : Time) (u : User) (code : Text) (step : ℕ)
    → verify_totp k now u code ≡ some step
    → Follows u.last_totp_step step
      × ((secret : Text) × (u.totp_secret_encrypted ≡ some secret)
          × Hit k secret code step (tried now))
unfolding verify_totp
verify_totp-fresh k now u code step e =
    checked k now u.last_totp_step code u.totp_secret_encrypted step e
