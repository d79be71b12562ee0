-- ===== src/Base/Lists.antt =====
-- Lists measured by native numbers, and sets of identifiers kept as lists.
use Prim.Native.Nat.{ℕ, zero, suc, ◌+◌, ◌-◌, ◌≤◌, min}
use mathlib.Core.Path.{◌≡◌}
use mathlib.Core.Bool.{Bool, true, false, ◌&&◌, ◌||◌, not}
use mathlib.Core.List.{List, [], ◌∷◌, ◌++◌}
use native.Mathlib.Omega.{arith}
use mathlib.Core.Logic.{inl, inr}
use layerscope.Base.Tests.{◌==◌, ==_iff, Bool-cases, if◌then◌else◌}

module _ {ℓ} {A : Type ℓ} where
  abbrev pub length : List A → ℕ
  length [] = 0
  length (x ∷ xs) = suc (length xs)

  abbrev pub take : ℕ → List A → List A
  take zero xs = []
  take (suc n) [] = []
  take (suc n) (x ∷ xs) = x ∷ take n xs

  abbrev pub drop : ℕ → List A → List A
  drop zero xs = xs
  drop (suc n) [] = []
  drop (suc n) (x ∷ xs) = drop n xs

  pub length-append : (xs ys : List A) → length (xs ++ ys) ≡ length xs + length ys
  length-append [] ys = omega arith
  length-append (x ∷ xs) ys = omega (arith, length-append xs ys)

  pub length-take : (n : ℕ) (xs : List A) → length (take n xs) ≡ min n (length xs)
  length-take zero xs = omega arith
  length-take (suc n) [] = omega arith
  length-take (suc n) (x ∷ xs) = omega (arith, length-take n xs)

  pub length-drop : (n : ℕ) (xs : List A) → length (drop n xs) ≡ length xs - n
  length-drop zero xs = omega arith
  length-drop (suc n) [] = omega arith
  length-drop (suc n) (x ∷ xs) = omega (arith, length-drop n xs)

  -- Tests over a list, by a Boolean predicate.
  abbrev pub any : (A → Bool) → List A → Bool
  any p [] = false
  any p (x ∷ xs) = p x || any p xs

  abbrev pub all : (A → Bool) → List A → Bool
  all p [] = true
  all p (x ∷ xs) = p x && all p xs

  -- `[x for x in xs if p(x)]`
  abbrev pub select : (A → Bool) → List A → List A
  select p [] = []
  select p (x ∷ xs) = let rest = select p xs in if p x then x ∷ rest else rest

  pub length-select-le : (p : A → Bool) (xs : List A) → length (select p xs) ≤ length xs
  length-select-le p [] = omega arith
  length-select-le p (x ∷ xs) = ground (arith, length-select-le p xs)

-- A Python set of integers, as the list of its members.
abbrev pub member : ℕ → List ℕ → Bool
member i [] = false
member i (j ∷ s) = i == j || member i s

-- `s.add(i)`
unfoldable pub add : ℕ → List ℕ → List ℕ
add i s = if member i s then s else i ∷ s

-- `s.discard(i)`
unfoldable pub discard : ℕ → List ℕ → List ℕ
discard i s = select (λ j. not (i == j)) s

pub member-add : (i j : ℕ) (s : List ℕ) → member j (add i s) ≡ (j == i || member j s)
unfolding add
member-add i j s = elim (Bool-cases (member i s)) [
  | inl old ↦
      rw old (elim (Bool-cases (j == i)) [ inl e ↦ rw (e, (==_iff j i).0 e, old) | inr e ↦ rw e ])
  | inr new ↦ rw new
]

pub member-discard : (i j : ℕ) (s : List ℕ) → member j (discard i s) ≡ (not (i == j) && member j s)
unfolding discard
member-discard i j [] = ground arith
member-discard i j (k ∷ s) = ground (arith, member-discard i j s)
