-- ===== src/Security.antt =====
-- backend/app/security.py: text that comes from outside, before it is stored or shown.
use layerscope.Base.{
  ℕ, zero, suc, ◌+◌, ◌-◌, Bool, not, ◌&&◌, ◌||◌, List, [], ◌∷◌, ◌++◌, Option, none, some, ◌==◌, ltb,
  leb, if◌then◌else◌, select, drop, length, ◌≡◌, refl,
}
use mathlib.Core.Option
use layerscope.Base.Text.{Text, text, strip, replace, last}

-- CONTROL_CHARACTERS: [\x00-\x08\x0b\x0c\x0e-\x1f\x7f]
unfoldable pub is_control : ℕ → Bool
is_control c = leb c 8 || c == 11 || c == 12 || (leb 14 c && leb c 31) || c == 127

-- `CONTROL_CHARACTERS.sub("", text)`
unfoldable pub drop_controls : Text → Text
unfolding is_control
drop_controls = select (λ c. not (is_control c))

-- How many characters of a text, from the start, satisfy a test.
run_length : (ℕ → Bool) → Text → ℕ
run_length p [] = 0
run_length p (c ∷ s) = let more = run_length p s in if p c then suc more else 0

-- The last byte of a control sequence, `[@-~]`, after `n` characters of it.
csi_final : ℕ → Text → Option ℕ
csi_final n [] = none
csi_final n (c ∷ r) = if leb 64 c && leb c 126 then some (n + 1) else none

-- After `\x1b[`: the length of `[0-?]*[ -/]*[@-~]`, if it matches. The classes are disjoint, so
-- the greedy match is the only one.
csi_length : Text → Option ℕ
unfolding run_length csi_final
csi_length s =
    let a = run_length (λ c. leb 48 c && leb c 63) s in
    let b = run_length (λ c. leb 32 c && leb c 47) (drop a s) in csi_final (a + b) (drop (a + b) s)

-- The end of the last `\x1b\` in a text, counted from the start.
last_terminator : ℕ → Text → Option ℕ
last_terminator n [] = none
last_terminator n (c ∷ []) = none
last_terminator n (c ∷ d ∷ s) = elim (last_terminator (n + 1) (d ∷ s)) [
  | some k ↦ some k
  | none ↦ if c == 27 && d == 92 then some (n + 2) else none
]

-- After `\x1b]`: the length of `[^\x07]*(?:\x07|\x1b\\)`, if it matches: up to the first `\x07`, or
-- else up to the last `\x1b\`.
osc_length : Text → Option ℕ
unfolding run_length last_terminator
osc_length s =
    let a = run_length (λ c. not (c == 7)) s in
    if ltb a (length s) then some (a + 1) else last_terminator 0 s

-- The length of the match of ANSI_ESCAPE at the start of a text.
escape_length : Text → Option ℕ
unfolding csi_length osc_length
escape_length [] = none
escape_length (c ∷ []) = none
escape_length (c ∷ d ∷ s) =
    if c == 27 && d == 91
    then Option.map (λ n. n + 2) (csi_length s)
    else if c == 27 && d == 93
    then Option.map (λ n. n + 2) (osc_length s)
    else none

-- `ANSI_ESCAPE.sub("", text)`: `skip` characters belong to the match before.
drop_escapes_from : ℕ → Text → Text
unfolding escape_length
drop_escapes_from skip [] = []
drop_escapes_from (suc skip) (c ∷ s) = drop_escapes_from skip s
drop_escapes_from zero (c ∷ s) = elim (escape_length (c ∷ s)) [
  | some n ↦ drop_escapes_from (n - 1) s
  | none ↦ c ∷ drop_escapes_from 0 s
]

unfoldable pub drop_escapes : Text → Text
unfolding drop_escapes_from
drop_escapes = drop_escapes_from 0

-- The texts of `settings.roots`, `settings.upload_dir` and `settings.raw_results_dir`, resolved
-- (`managed_roots`).
abbrev pub Roots : Type 0
Roots = List Text

hide_roots : Roots → Text → Text
hide_roots [] s = s
hide_roots (root ∷ roots) s = hide_roots roots (replace root (text "[managed storage]") s)

unfoldable pub sanitize_untrusted_text : Roots → Text → ℕ → Text
unfolding drop_escapes drop_controls hide_roots
sanitize_untrusted_text roots value limit =
    last limit (hide_roots roots (strip (drop_controls (drop_escapes value))))

sanitize_test :
    sanitize_untrusted_text
      (text "/data/raw" ∷ [])
      (27 ∷ text "[31mno /data/raw/x" ++ (27 ∷ text "[0m") ++ (7 ∷ []))
      4000
    ≡ text "no [managed storage]/x"
unfolding sanitize_untrusted_text text strip replace last
sanitize_test = refl
