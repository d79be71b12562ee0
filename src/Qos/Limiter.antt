-- ===== src/Qos/Limiter.antt =====
-- backend/app/qos.py: `QualityOfServiceMiddleware.allowed`, the limit on anonymous sign-in attempts
-- per address and path in a sliding window.
use layerscope.Base.{
  ℕ, suc, ◌+◌, ◌-◌, ◌/◌, ◌%◌, ◌≤◌, ◌≡◌, max, Bool, true, false, not, List, [], ◌∷◌, ◌++◌, ◌==◌, ltb,
  leb, length, select, if◌then◌else◌, all,
}
use layerscope.Base.Text.{Text, same}
use layerscope.Config.{Settings}
use layerscope.Models.{Time, seconds}

-- One entry of `attempts`.
pub record Bucket : Type 0 where
  pub key : Text
  pub times : List Time

pub record Limiter : Type 0 where
  pub attempts : List Bucket
  pub requests : ℕ

abbrev pub window : Settings → Time
window c = seconds c.auth_rate_limit_window_seconds

-- `times[0] <= now - window`
abbrev pub outdated : Settings → Time → Time → Bool
outdated c now t = leb (t + window c) now

-- The loop that pops from the left.
unfoldable pub pop_outdated : Settings → Time → List Time → List Time
pop_outdated c now [] = []
pop_outdated c now (t ∷ ts) =
    let rest = pop_outdated c now ts in if outdated c now t then rest else t ∷ ts

unfoldable pub times_of : Text → List Bucket → List Time
times_of key [] = []
times_of key (b ∷ bs) = if same b.key key then b.times else times_of key bs

-- The entry of a key with new times; `defaultdict` makes a missing one.
unfoldable pub put_times : Text → List Time → List Bucket → List Bucket
put_times key ts [] = record { key = key; times = ts } ∷ []
put_times key ts (b ∷ bs) =
    if same b.key key then record b { times = ts } ∷ bs else b ∷ put_times key ts bs

abbrev pub all_outdated : Settings → Time → List Time → Bool
all_outdated c now [] = true
all_outdated c now (t ∷ []) = outdated c now t
all_outdated c now (t ∷ u ∷ ts) = all_outdated c now (u ∷ ts)

abbrev pub sweep : Settings → Time → ℕ → List Bucket → List Bucket
sweep c now requests bs =
    if requests % 500 == 0 then select (λ (b : Bucket). not (all_outdated c now b.times)) bs else bs

abbrev pub retry_after : Settings → Time → List Time → ℕ
retry_after c now [] = 1
retry_after c now (t ∷ ts) = max 1 ((t + window c - now) / 1000000 + 1)

-- `allowed`: the limiter afterwards, whether the request passes, and when to retry.
unfoldable pub allowed : Settings → Time → Text → Limiter → Limiter × (Bool × ℕ)
allowed c now key l =
    let bucket = pop_outdated c now (times_of key l.attempts) in
    if leb c.auth_rate_limit_attempts (length bucket)
    then (
      record l { attempts = put_times key bucket l.attempts },
      (false, retry_after c now bucket),
    )
    else (
      record {
        attempts = sweep c now (suc l.requests) (put_times key (bucket ++ (now ∷ [])) l.attempts);
        requests = suc l.requests;
      },
      (true, 0),
    )

-- Attempts in the order of their times, none after an instant.
abbrev pub Ordered : Time → List Time → Type 0
Ordered now [] = Unit
Ordered now (t ∷ ts) = (t ≤ now) × (all (leb t) ts ≡ true) × Ordered now ts

-- No entry has more attempts than the limit, and each entry is in order.
abbrev pub Limited : ℕ → Time → List Bucket → Type 0
Limited n now [] = Unit
Limited n now (b ∷ bs) = (length b.times ≤ n) × Ordered now b.times × Limited n now bs

-- The attempts of the last window.
abbrev pub recent : Settings → Time → List Time → ℕ
recent c now ts = length (select (λ (t : Time). ltb now (t + window c)) ts)
