-- ===== src/Base/Text.antt =====
-- Python's `str` as the list of its code points, with the methods that the program calls.
use Prim.Native.Nat.{ℕ, zero, suc, ◌+◌, ◌-◌, ◌/◌, ◌%◌, ◌≤◌}
use Prim.Native.Char.{code}
use Prim.Native.String.{String}
use mathlib.Core.Path.{◌≡◌, refl}
use mathlib.Core.Bool.{Bool, true, false, ◌&&◌, ◌||◌}
use mathlib.Core.List.{List, [], ◌∷◌, ◌++◌, reverse}
use native.Mathlib.Omega.{arith}
use layerscope.Base.Tests.{◌==◌, ltb, leb, if◌then◌else◌}
use layerscope.Base.Lists.{length, take, drop, length-take, length-drop, any}

abbrev pub Text : Type 0
Text = List ℕ

-- A literal.
unfoldable pub text : String → Text
text String.[] = []
text (String.◌∷◌ c s) = code c ∷ text s

-- `a == b`
unfoldable pub same : Text → Text → Bool
same [] [] = true
same [] (d ∷ t) = false
same (c ∷ s) [] = false
same (c ∷ s) (d ∷ t) = c == d && same s t

pub same_refl : (s : Text) → same s s ≡ true
unfolding same
same_refl [] = refl
same_refl (c ∷ s) = ground (arith, same_refl s)

pub same→eq : (s t : Text) → same s t ≡ true → s ≡ t
unfolding same
same→eq [] [] h = refl
same→eq [] (d ∷ t) h = cc
same→eq (c ∷ s) [] h = cc
same→eq (c ∷ s) (d ∷ t) h = ground (arith, same→eq s t)

-- `value in {…}`, for a set of texts.
unfoldable pub one_of : Text → List Text → Bool
unfolding same
one_of s = any (same s)

-- `bool(text)`
abbrev pub nonempty : Text → Bool
nonempty [] = false
nonempty (_ ∷ _) = true

-- `text or default`
abbrev pub or_text : Text → Text → Text
or_text [] d = d
or_text (c ∷ s) d = c ∷ s

-- `str.isspace` of one character.
unfoldable pub is_space : ℕ → Bool
is_space c =
    (leb 9 c && leb c 13)
    || (leb 28 c && leb c 32)
    || c == 133
    || c == 160
    || c == 5760
    || (leb 8192 c && leb c 8202)
    || c == 8232
    || c == 8233
    || c == 8239
    || c == 8287
    || c == 12288

-- `str.lstrip()`
unfoldable pub lstrip : Text → Text
unfolding is_space
lstrip [] = []
lstrip (c ∷ s) = let rest = lstrip s in if is_space c then rest else c ∷ s

-- `str.strip()`
unfoldable pub strip : Text → Text
unfolding lstrip
strip s = reverse (lstrip (reverse (lstrip s)))

-- `text[-n:]` for a positive n.
unfoldable pub last : ℕ → Text → Text
last n s = drop (length s - n) s

pub length-last : (n : ℕ) (s : Text) → length (last n s) ≤ n
unfolding last
length-last n s = omega (arith, length-drop (length s - n) s)

pub length-take-le : (n : ℕ) (s : Text) → length (take n s) ≤ n
length-take-le n s = omega (arith, length-take n s)

-- `str.startswith`
unfoldable pub starts_with : Text → Text → Bool
starts_with s [] = true
starts_with [] (d ∷ p) = false
starts_with (c ∷ s) (d ∷ p) = c == d && starts_with s p

-- `part in text`
unfoldable pub contains : Text → Text → Bool
unfolding starts_with
contains part [] = starts_with [] part
contains part (c ∷ s) = starts_with (c ∷ s) part || contains part s

-- `text.replace(old, new)` for a nonempty `old`: `skip` characters belong to a match.
replace_from : Text → Text → ℕ → Text → Text
unfolding starts_with
replace_from old new skip [] = []
replace_from old new (suc skip) (c ∷ s) = replace_from old new skip s
replace_from old new zero (c ∷ s) =
    let after = replace_from old new (length old - 1) s in
    let on = replace_from old new zero s in if starts_with (c ∷ s) old then new ++ after else c ∷ on

unfoldable pub replace : Text → Text → Text → Text
unfolding replace_from
replace [] new s = s
replace (c ∷ old) new s = replace_from (c ∷ old) new 0 s

-- `sep.join(items)`
unfoldable pub join : Text → List Text → Text
join sep [] = []
join sep (x ∷ []) = x
join sep (x ∷ y ∷ r) = x ++ (sep ++ join sep (y ∷ r))

-- `str(n)`: the fuel `n` is enough, as a number has no more digits than its value plus one.
decimal_fuel : ℕ → ℕ → Text
decimal_fuel zero n = (48 + n % 10) ∷ []
decimal_fuel (suc f) n =
    let rest = decimal_fuel f (n / 10) in
    if ltb n 10 then (48 + n) ∷ [] else rest ++ ((48 + n % 10) ∷ [])

unfoldable pub decimal : ℕ → Text
unfolding decimal_fuel
decimal n = decimal_fuel n n

-- The digits of a number in groups of three, from the right: `f"{n:,}"`.
group_digits : ℕ → Text → Text
group_digits k [] = []
group_digits k (c ∷ []) = c ∷ []
group_digits zero (c ∷ d ∷ s) = c ∷ group_digits 1 (d ∷ s)
group_digits (suc zero) (c ∷ d ∷ s) = c ∷ group_digits 2 (d ∷ s)
group_digits (suc (suc k)) (c ∷ d ∷ s) = c ∷ b',' ∷ group_digits 0 (d ∷ s)

unfoldable pub grouped : ℕ → Text
unfolding decimal group_digits
grouped n = reverse (group_digits 0 (reverse (decimal n)))

decimal_1900 : decimal 1900 ≡ text "1900"
unfolding decimal text
decimal_1900 = refl

grouped_1234567 : grouped 1234567 ≡ text "1,234,567"
unfolding grouped text
grouped_1234567 = refl

replace_test : replace (text "ab") (text "x") (text "aabcab") ≡ text "axcx"
unfolding replace text
replace_test = refl

strip_test : strip (text "  a b ") ≡ text "a b"
unfolding strip text
strip_test = refl
