-- ===== src/Base/Keys.antt =====
-- `dict.fromkeys`: the items of a list without repetition, and how often a list has an item.
use layerscope.Base.{
  ℕ, suc, ◌≤◌, Bool, true, false, List, [], ◌∷◌, ◌≡◌, refl, arith, ap, ◌==◌, ==_iff, Bool-cases,
  inl, inr, all, member, discard, member-discard, select, if◌then◌else◌,
}

-- A value of `dict.fromkeys`: the first occurrence of each item.
unfoldable pub fromkeys : List ℕ → List ℕ
fromkeys [] = []
fromkeys (i ∷ is) = i ∷ discard i (fromkeys is)

pub member-fromkeys : (i : ℕ) (ids : List ℕ) → member i (fromkeys ids) ≡ member i ids
unfolding fromkeys
member-fromkeys i [] = refl
member-fromkeys i (j ∷ ids) =
    ground (arith, member-fromkeys i ids, member-discard j i (fromkeys ids))

all-discard : (p : ℕ → Bool) (i : ℕ) (ids : List ℕ) → p i ≡ true → all p (discard i ids) ≡ all p ids
unfolding discard
all-discard p i [] h = refl
all-discard p i (j ∷ ids) h = elim (Bool-cases (i == j)) [
  | inl e ↦
      let same_p : p i ≡ p j = ap p ((==_iff i j).0 e) in
      ground (arith, all-discard p i ids h, e, same_p, h)
  | inr e ↦ ground (arith, all-discard p i ids h, e)
]

pub all-fromkeys : (p : ℕ → Bool) (ids : List ℕ) → all p (fromkeys ids) ≡ all p ids
unfolding fromkeys
all-fromkeys p [] = refl
all-fromkeys p (i ∷ ids) = elim (Bool-cases (p i)) [
  | inl e ↦ ground (arith, e, all-discard p i (fromkeys ids) e, all-fromkeys p ids)
  | inr e ↦ ground (arith, e)
]

-- How often a list has an item.
unfoldable pub occurrences : ℕ → List ℕ → ℕ
occurrences i [] = 0
occurrences i (j ∷ js) = let rest = occurrences i js in if i == j then suc rest else rest

pub occurrences-discard :
    (i j : ℕ) (js : List ℕ)
    → occurrences i (discard j js) ≡ (if j == i then 0 else occurrences i js)
unfolding occurrences discard
occurrences-discard i j [] = ground arith
occurrences-discard i j (k ∷ js) = ground (arith, occurrences-discard i j js)

pub occurrences-fromkeys : (i : ℕ) (js : List ℕ) → occurrences i (fromkeys js) ≤ 1
unfolding occurrences fromkeys
occurrences-fromkeys i [] = omega arith
occurrences-fromkeys i (j ∷ js) =
    ground (arith, occurrences-fromkeys i js, occurrences-discard i j (fromkeys js))

pub occurrences-select :
    (p : ℕ → Bool) (i : ℕ) (js : List ℕ) → occurrences i (select p js) ≤ occurrences i js
unfolding occurrences
occurrences-select p i [] = omega arith
occurrences-select p i (j ∷ js) = ground (arith, occurrences-select p i js)

pub occurrences-select_other :
    (p : ℕ → Bool) (i : ℕ) (js : List ℕ) → p i ≡ false → occurrences i (select p js) ≡ 0
unfolding occurrences
occurrences-select_other p i [] h = refl
occurrences-select_other p i (j ∷ js) h = elim (Bool-cases (i == j)) [
  | inl e ↦
      let same_p : p i ≡ p j = ap p ((==_iff i j).0 e) in
      ground (arith, occurrences-select_other p i js h, e, same_p, h)
  | inr e ↦ ground (arith, occurrences-select_other p i js h, e)
]
