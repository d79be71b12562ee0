-- ===== src/Groups/Unique.antt =====
-- The rows of the members: the database's constraint that a group holds an image once is met.
use layerscope.Base.{
  ℕ, suc, ◌+◌, ◌≤◌, false, not, ◌&&◌, List, [], ◌∷◌, ◌++◌, Option, none, some, ◌≡◌, refl, arith, ap,
  sym, ◌∙◌, ◌==◌, ==_iff, Bool-cases, inl, inr, length, select, if◌then◌else◌,
}
use layerscope.Base.Keys.{
  fromkeys, occurrences, occurrences-fromkeys, occurrences-select, occurrences-select_other,
}
use layerscope.Base.Table
use layerscope.Models.{Time, User}
use layerscope.Auth.{Request}
use layerscope.Groups.{
  ImageGroup, ImageGroupMember, GroupDb, group_key, missing, is_member, drop_members, new_members,
  replace_members, replace_found, replace_checked, add_members, add_found, add_checked,
  delete_group, delete_found,
}
use layerscope.Groups.Spec.{Change, replace, add, delete, perform, perform_all}

-- The rows that put an image in a group.
unfoldable pub count_rows : ℕ → ℕ → List ImageGroupMember → ℕ
count_rows g i rows =
    length (select (λ (x : ImageGroupMember). x.group_id == g && x.image_id == i) rows)

module _ (g i : ℕ) where
  count_rows-append :
      (xs ys : List ImageGroupMember)
      → count_rows g i (xs ++ ys) ≡ count_rows g i xs + count_rows g i ys
  unfolding count_rows
  count_rows-append [] ys = omega arith
  count_rows-append (x ∷ xs) ys = ground (arith, count_rows-append xs ys)

  count_rows-drop_members :
      (h : ℕ) (xs : List ImageGroupMember)
      → count_rows g i (drop_members h xs) ≡ (if h == g then 0 else count_rows g i xs)
  unfolding count_rows
  count_rows-drop_members h [] = ground arith
  count_rows-drop_members h (x ∷ xs) = ground (arith, count_rows-drop_members h xs)

  count_rows-new_members :
      (keys : ℕ → ℕ) (now : Time) (h n : ℕ) (ids : List ℕ)
      → count_rows g i (new_members keys now h n ids) ≡ (if h == g then occurrences i ids else 0)
  unfolding count_rows new_members occurrences
  count_rows-new_members keys now h n [] = ground arith
  count_rows-new_members keys now h n (j ∷ ids) =
      ground (arith, count_rows-new_members keys now h (suc n) ids)

  absent_row : (xs : List ImageGroupMember) → is_member g i xs ≡ false → count_rows g i xs ≡ 0
  unfolding count_rows is_member
  absent_row [] h = refl
  absent_row (x ∷ xs) h = ground (arith, h, absent_row xs)

abbrev IsUnique : GroupDb → Type 0
IsUnique db = (g i : ℕ) → count_rows g i db.members ≤ 1

module _ (keys : ℕ → ℕ) (r : Request) (actor : User) (db : GroupDb) (s : IsUnique db) where
  replace_found-Unique :
      (o : Option ImageGroup) (ids : List ℕ) → IsUnique (replace_found keys r actor o ids db).0
  replace_found-Unique none ids = s
  replace_found-Unique (some x) ids = checked (missing db.images (fromkeys ids))
    where
      checked : (m : List ℕ) → IsUnique (replace_checked keys r actor x (fromkeys ids) m db).0
      checked (j ∷ js) = s
      checked [] = λ g i. ground (
        arith,
        s g i,
        count_rows-append g i (drop_members x.id db.members)
            (new_members keys r.now x.id 0 (fromkeys ids)),
        count_rows-drop_members g i x.id db.members,
        count_rows-new_members g i keys r.now x.id 0 (fromkeys ids),
        occurrences-fromkeys i ids,
      )

  added-Unique :
      (x : ImageGroup) (ids m : List ℕ)
      → IsUnique (add_checked keys r actor x (fromkeys ids) m db).0
  added-Unique x ids (j ∷ js) = s
  added-Unique x ids [] = λ g i.
      let outside = λ (i : ℕ). not (is_member x.id i db.members) in
      let additions = select outside (fromkeys ids) in
      let appended = count_rows-append g i db.members (new_members keys r.now x.id 0 additions) in
      let added = count_rows-new_members g i keys r.now x.id 0 additions in
      let once = occurrences-fromkeys i ids in
      let kept = occurrences-select outside i (fromkeys ids) in
      elim (Bool-cases (x.id == g)) [
        | inr k ↦ ground (arith, k, s g i, appended, added)
        | inl k ↦ elim (Bool-cases (is_member x.id i db.members)) [
          | inl f ↦ ground (
            arith,
            k,
            s g i,
            appended,
            added,
            occurrences-select_other outside i (fromkeys ids) (rw f refl),
          )
          | inr f ↦
              let same_row = ap (λ (h : ℕ). is_member h i db.members) (sym ((==_iff x.id g).0 k)) in
              ground
                (arith, k, appended, added, once, kept, absent_row g i db.members (same_row ∙ f))
        ]
      ]

  add_found-Unique :
      (o : Option ImageGroup) (ids : List ℕ) → IsUnique (add_found keys r actor o ids db).0
  add_found-Unique none ids = s
  add_found-Unique (some x) [] = s
  add_found-Unique (some x) (i ∷ is) =
      added-Unique x (i ∷ is) (missing db.images (fromkeys (i ∷ is)))

  delete_found-Unique : (o : Option ImageGroup) → IsUnique (delete_found r actor o db).0
  delete_found-Unique none = s
  delete_found-Unique (some x) =
      λ g i. ground (arith, s g i, count_rows-drop_members g i x.id db.members)

  perform-Unique : (c : Change) → IsUnique (perform keys r actor c db).0
  unfolding perform replace_members add_members delete_group
  perform-Unique (replace g ids) = replace_found-Unique (Table.get group_key g db.groups) ids
  perform-Unique (add g ids) = add_found-Unique (Table.get group_key g db.groups) ids
  perform-Unique (delete g) = delete_found-Unique (Table.get group_key g db.groups)

-- From a table in which a group holds an image once at most, no sequence of replacements, additions
-- and deletions adds a second row for the same group and image, also when a request names an image
-- several times.
pub perform_all-Unique :
    (keys : ℕ → ℕ) (r : Request) (actor : User) (cs : List Change) (db : GroupDb)
    → ((g i : ℕ) → count_rows g i db.members ≤ 1)
    → (g i : ℕ) → count_rows g i (perform_all keys r actor cs db).0.members ≤ 1
unfolding perform_all
perform_all-Unique keys r actor [] db s = s
perform_all-Unique keys r actor (c ∷ cs) db s =
    perform_all-Unique keys r actor cs (perform keys r actor c db).0
      (perform-Unique keys r actor db s c)
