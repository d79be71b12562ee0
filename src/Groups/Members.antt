-- ===== src/Groups/Members.antt =====
-- The membership tables of the groups, and the lists of numbers that the requests carry.
use layerscope.Base.{
  ℕ, suc, Bool, true, false, not, ◌&&◌, ◌||◌, List, [], ◌∷◌, ◌++◌, ◌≡◌, refl, arith, ap, ◌∙◌, ◌==◌,
  ==_iff, Bool-cases, inl, inr, any, all, member, select, is_some,
}
use layerscope.Base.Keys.{fromkeys, all-fromkeys}
use layerscope.Base.Table
use layerscope.Models.{Time, ImageArchive}
use layerscope.Groups.{
  ImageGroup, ImageGroupMember, group_key, insert_number, sorted, missing, is_visible, is_member,
  drop_members, new_members,
}

module _ (g i : ℕ) where
  pub is_member-append :
      (xs ys : List ImageGroupMember)
      → is_member g i (xs ++ ys) ≡ (is_member g i xs || is_member g i ys)
  unfolding is_member
  is_member-append [] ys = refl
  is_member-append (x ∷ xs) ys = ground (arith, is_member-append xs ys)

  pub is_member-drop_members :
      (h : ℕ) (xs : List ImageGroupMember)
      → is_member g i (drop_members h xs) ≡ (not (h == g) && is_member g i xs)
  unfolding is_member
  is_member-drop_members h [] = ground arith
  is_member-drop_members h (x ∷ xs) = ground (arith, is_member-drop_members h xs)

  pub is_member-new_members :
      (keys : ℕ → ℕ) (now : Time) (h n : ℕ) (ids : List ℕ)
      → is_member g i (new_members keys now h n ids) ≡ (h == g && member i ids)
  unfolding is_member new_members
  is_member-new_members keys now h n [] = ground arith
  is_member-new_members keys now h n (j ∷ ids) =
      ground (arith, is_member-new_members keys now h (suc n) ids)

pub member-select :
    (p : ℕ → Bool) (i : ℕ) (ids : List ℕ) → member i (select p ids) ≡ (p i && member i ids)
member-select p i [] = ground arith
member-select p i (j ∷ ids) = elim (Bool-cases (i == j)) [
  | inl e ↦
      let same_p : p i ≡ p j = ap p ((==_iff i j).0 e) in
      ground (arith, member-select p i ids, e, same_p)
  | inr e ↦ ground (arith, member-select p i ids, e)
]

abbrev pub is_empty : {A : Type 0} → List A → Bool
is_empty [] = true
is_empty (x ∷ xs) = false

insert_full : (i : ℕ) (js : List ℕ) → is_empty (insert_number i js) ≡ false
unfolding insert_number
insert_full i [] = refl
insert_full i (j ∷ js) = ground arith

is_empty-sorted : (is : List ℕ) → is_empty (sorted is) ≡ is_empty is
unfolding sorted
is_empty-sorted [] = refl
is_empty-sorted (i ∷ is) = insert_full i (sorted is)

is_empty-select : (p : ℕ → Bool) (ids : List ℕ) → is_empty (select (λ i. not (p i)) ids) ≡ all p ids
is_empty-select p [] = refl
is_empty-select p (i ∷ ids) = ground (arith, is_empty-select p ids)

-- Nothing is missing when every requested image is visible.
pub is_empty-missing :
    (images : List ImageArchive) (ids : List ℕ)
    → is_empty (missing images (fromkeys ids)) ≡ all (is_visible images) ids
unfolding missing
is_empty-missing images ids =
    is_empty-sorted (select (λ i. not (is_visible images i)) (fromkeys ids))
    ∙ (is_empty-select (is_visible images) (fromkeys ids) ∙ all-fromkeys (is_visible images) ids)

-- A group is in the table.
abbrev pub exists_group : List ImageGroup → ℕ → Bool
exists_group groups g = any (λ (x : ImageGroup). x.id == g) groups

pub exists-get :
    (g : ℕ) (groups : List ImageGroup)
    → exists_group groups g ≡ is_some (Table.get group_key g groups)
unfolding Table.get
exists-get g [] = refl
exists-get g (x ∷ groups) = ground (arith, exists-get g groups)

pub exists-select :
    (g h : ℕ) (groups : List ImageGroup)
    → exists_group (select (λ (x : ImageGroup). not (x.id == h)) groups) g
      ≡ (exists_group groups g && not (h == g))
exists-select g h [] = refl
exists-select g h (x ∷ groups) = ground (arith, exists-select g h groups)
