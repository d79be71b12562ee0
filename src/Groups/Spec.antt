-- ===== src/Groups/Spec.antt =====
-- What the operations on the members of groups promise: a set of images for each group.
use mathlib.Core.Path.{fun_ext, subst}
use layerscope.Base.{
  ℕ, Bool, true, false, not, ◌&&◌, ◌||◌, List, [], ◌∷◌, Option, none, some, ◌≡◌, refl, arith, ap,
  sym, ◌∙◌, ◌==◌, ==_iff, Bool-cases, inl, inr, all, member, select, is_some, if◌then◌else◌,
}
use layerscope.Base.Keys.{fromkeys, member-fromkeys}
use layerscope.Base.Table
use layerscope.Models.{User}
use layerscope.Auth.{Request, Reply, ok, http}
use layerscope.Groups.{
  ImageGroup, GroupDb, Answered, group_key, missing, is_visible, is_member, drop_members,
  new_members, replace_members, replace_found, replace_checked, add_members, add_found, add_checked,
  delete_group, delete_found,
}
use layerscope.Groups.Members.{
  is_member-append, is_member-drop_members, is_member-new_members, member-select, is_empty,
  is_empty-missing, exists_group, exists-get, exists-select,
}

-- The groups that there are, the images that can be chosen, and the images of each group.
pub record Memberships : Type 0 where
  pub exists : ℕ → Bool
  pub visible : ℕ → Bool
  pub holds : ℕ → ℕ → Bool

pub data Change : Type 0 where
  replace add : ℕ → List ℕ → Change
  delete : ℕ → Change

-- What a change needs, and what it does to the sets.
abbrev pub accepts : Change → Memberships → Bool
accepts (replace g ids) s = s.exists g && all s.visible ids
accepts (add g ids) s = s.exists g && not (is_empty ids) && all s.visible ids
accepts (delete g) s = s.exists g

abbrev pub effect : Change → Memberships → Memberships
effect (replace g ids) s = record s { holds = λ h i. if g == h then member i ids else s.holds h i }
effect (add g ids) s = record s { holds = λ h i. s.holds h i || (g == h && member i ids) }
effect (delete g) s = record s {
  exists = λ h. s.exists h && not (g == h);
  holds = λ h i. not (g == h) && s.holds h i;
}

unfoldable pub change_sets : Change → Memberships → Memberships
change_sets c s = if accepts c s then effect c s else s

-- The view of the tables, and the handlers as one operation.
abbrev pub sets : GroupDb → Memberships
sets db = record {
  exists = exists_group db.groups;
  visible = is_visible db.images;
  holds = λ g i. is_member g i db.members;
}

abbrev pub accepted : {A : Type 0} → Reply A → Bool
accepted (ok a) = true
accepted (http code message) = false

abbrev pub outcome : {A : Type 0} → Answered A → GroupDb × Bool
outcome (db, reply) = (db, accepted reply)

unfoldable pub perform : (ℕ → ℕ) → Request → User → Change → GroupDb → GroupDb × Bool
perform keys r actor (replace g ids) db = outcome (replace_members keys r actor g ids db)
perform keys r actor (add g ids) db = outcome (add_members keys r actor g ids db)
perform keys r actor (delete g) db = outcome (delete_group r actor g db)

-- The answers of a sequence of changes, and the sets or tables afterwards.
unfoldable pub perform_all : (ℕ → ℕ) → Request → User → List Change → GroupDb → GroupDb × List Bool
perform_all keys r actor [] db = (db, [])
perform_all keys r actor (c ∷ cs) db =
    let (db', b) = perform keys r actor c db in
    let (db'', bs) = perform_all keys r actor cs db' in (db'', b ∷ bs)

unfoldable pub change_all : List Change → Memberships → Memberships × List Bool
change_all [] s = (s, [])
change_all (c ∷ cs) s = let (s', bs) = change_all cs (change_sets c s) in (s', accepts c s ∷ bs)

abbrev made : (ℕ → Bool) → (ℕ → Bool) → (ℕ → ℕ → Bool) → Memberships
made e v h = record { exists = e; visible = v; holds = h }

made-ext :
    (e f v : ℕ → Bool) (h k : ℕ → ℕ → Bool)
    → ((g : ℕ) → e g ≡ f g)
    → ((g i : ℕ) → h g i ≡ k g i)
    → made e v h ≡ made f v k
made-ext e f v h k p q =
    let p' : e ≡ f = fun_ext p in
    let q' : h ≡ k = fun_ext (λ g. fun_ext (q g)) in ap (λ x. made x v h) p' ∙ ap (made f v) q'

-- A change does to the view what it does to the sets, or is refused and does nothing.
abbrev Commutes : Change → GroupDb → GroupDb × Bool → Type 0
Commutes c db x = (x.1 ≡ accepts c (sets db)) × (sets x.0 ≡ change_sets c (sets db))

refused : (c : Change) (db : GroupDb) → accepts c (sets db) ≡ false → Commutes c db (db, false)
unfolding change_sets
refused c db h = (sym h, rw h refl)

done :
    (c : Change) (db db' : GroupDb)
    → accepts c (sets db) ≡ true
    → sets db' ≡ effect c (sets db)
    → Commutes c db (db', true)
unfolding change_sets
done c db db' h e = (sym h, rw h e)

module _ (keys : ℕ → ℕ) (r : Request) (actor : User) (db : GroupDb) where
  -- All the requested images are visible when none is missing.
  all_visible :
      (ids missed : List ℕ)
      → missing db.images (fromkeys ids) ≡ missed
      → all (is_visible db.images) ids ≡ is_empty missed
  all_visible ids missed m = sym (is_empty-missing db.images ids) ∙ ap is_empty m

  replaced_commutes :
      (x : ImageGroup) (ids missed : List ℕ)
      → exists_group db.groups x.id ≡ true
      → missing db.images (fromkeys ids) ≡ missed
      → Commutes
          (replace x.id ids)
          db
          (outcome (replace_checked keys r actor x (fromkeys ids) missed db))
  replaced_commutes x ids [] e m =
      done (replace x.id ids) db (replace_checked keys r actor x (fromkeys ids) [] db).0
        (ground (arith, e, all_visible ids [] m))
        (made-ext _ _ _ _ _ (λ g. refl)
          λ g i. ground (
            arith,
            is_member-append g i (drop_members x.id db.members)
                (new_members keys r.now x.id 0 (fromkeys ids)),
            is_member-drop_members g i x.id db.members,
            is_member-new_members g i keys r.now x.id 0 (fromkeys ids),
            member-fromkeys i ids,
          ))
  replaced_commutes x ids (j ∷ js) e m =
      refused (replace x.id ids) db (ground (arith, e, all_visible ids (j ∷ js) m))

  added_commutes :
      (x : ImageGroup) (ids missed : List ℕ)
      → exists_group db.groups x.id ≡ true
      → is_empty ids ≡ false
      → missing db.images (fromkeys ids) ≡ missed
      → Commutes (add x.id ids) db (outcome (add_checked keys r actor x (fromkeys ids) missed db))
  added_commutes x ids [] e f m =
      let additions = select (λ (i : ℕ). not (is_member x.id i db.members)) (fromkeys ids) in
      done (add x.id ids) db (add_checked keys r actor x (fromkeys ids) [] db).0
        (ground (arith, e, f, all_visible ids [] m))
        (made-ext _ _ _ _ _ (λ g. refl)
          λ g i. elim (Bool-cases (x.id == g)) [
            | inl k ↦
                let same_row = ap (λ (h : ℕ). is_member h i db.members) ((==_iff x.id g).0 k) in
                ground (
                  arith,
                  k,
                  same_row,
                  is_member-append g i db.members (new_members keys r.now x.id 0 additions),
                  is_member-new_members g i keys r.now x.id 0 additions,
                  member-select (λ i. not (is_member x.id i db.members)) i (fromkeys ids),
                  member-fromkeys i ids,
                )
            | inr k ↦ ground (
              arith,
              k,
              is_member-append g i db.members (new_members keys r.now x.id 0 additions),
              is_member-new_members g i keys r.now x.id 0 additions,
            )
          ])
  added_commutes x ids (j ∷ js) e f m =
      refused (add x.id ids) db (ground (arith, e, f, all_visible ids (j ∷ js) m))

  -- The row that was found has the number that was asked for.
  found :
      (c : ℕ → Change) (f : ImageGroup → GroupDb × Bool) (g : ℕ) (o : Option ImageGroup)
      → Table.get group_key g db.groups ≡ o
      → (exists_group db.groups g ≡ false → Commutes (c g) db (db, false))
      → ((x : ImageGroup) → exists_group db.groups x.id ≡ true → Commutes (c x.id) db (f x))
      → Commutes (c g) db (elim o [ none ↦ (db, false) | some x ↦ f x ])
  found c f g none h absent present = absent (exists-get g db.groups ∙ ap is_some h)
  found c f g (some x) h absent present =
      let same_key = Table.key-get group_key g db.groups x h in
      let here : exists_group db.groups x.id ≡ true =
        ap (exists_group db.groups) same_key ∙ (exists-get g db.groups ∙ ap is_some h) in
      subst (λ i. Commutes (c i) db (f x)) same_key (present x here)

  replace_commutes :
      (g : ℕ) (ids : List ℕ) (o : Option ImageGroup)
      → Table.get group_key g db.groups ≡ o
      → Commutes (replace g ids) db (outcome (replace_found keys r actor o ids db))
  replace_commutes g ids none h =
      refused (replace g ids) db (ground (arith, exists-get g db.groups ∙ ap is_some h))
  replace_commutes g ids (some x) h =
      found (λ i. replace i ids) (λ x. outcome (replace_found keys r actor (some x) ids db)) g
        (some x) h (λ e. refused (replace g ids) db (ground (arith, e)))
        (λ x e. replaced_commutes x ids (missing db.images (fromkeys ids)) e refl)

  add_commutes :
      (g : ℕ) (ids : List ℕ) (o : Option ImageGroup)
      → Table.get group_key g db.groups ≡ o
      → Commutes (add g ids) db (outcome (add_found keys r actor o ids db))
  add_commutes g ids none h =
      refused (add g ids) db (ground (arith, exists-get g db.groups ∙ ap is_some h))
  add_commutes g [] (some x) h = refused (add g []) db (ground arith)
  add_commutes g (i ∷ is) (some x) h =
      found (λ j. add j (i ∷ is)) (λ x. outcome (add_found keys r actor (some x) (i ∷ is) db)) g
        (some x) h (λ e. refused (add g (i ∷ is)) db (ground (arith, e)))
        (λ x e. added_commutes x (i ∷ is) (missing db.images (fromkeys (i ∷ is))) e refl refl)

  deleted_commutes :
      (x : ImageGroup)
      → exists_group db.groups x.id ≡ true
      → Commutes (delete x.id) db (outcome (delete_found r actor (some x) db))
  deleted_commutes x e = done (delete x.id) db (delete_found r actor (some x) db).0 e (
      made-ext _ _ _ _ _ (λ g. exists-select g x.id db.groups)
        (λ g i. is_member-drop_members g i x.id db.members))

  delete_commutes :
      (g : ℕ) (o : Option ImageGroup)
      → Table.get group_key g db.groups ≡ o
      → Commutes (delete g) db (outcome (delete_found r actor o db))
  delete_commutes g none h = refused (delete g) db (exists-get g db.groups ∙ ap is_some h)
  delete_commutes g (some x) h =
      found delete (λ x. outcome (delete_found r actor (some x) db)) g (some x) h
        (refused (delete g) db) deleted_commutes

  perform_commutes : (c : Change) → Commutes c db (perform keys r actor c db)
  unfolding perform replace_members add_members delete_group
  perform_commutes (replace g ids) = replace_commutes g ids (Table.get group_key g db.groups) refl
  perform_commutes (add g ids) = add_commutes g ids (Table.get group_key g db.groups) refl
  perform_commutes (delete g) = delete_commutes g (Table.get group_key g db.groups) refl

-- The handlers that replace and add the members of a group and that delete a group, in any sequence
-- and on any database, act on its sets of members as the changes of sets do, and accept and refuse the
-- same requests: a group that is missing, an image that is missing or hidden, and an addition of no
-- images are refused and change nothing.
pub perform_all_refines :
    (keys : ℕ → ℕ) (r : Request) (actor : User) (cs : List Change) (db : GroupDb)
    → (sets (perform_all keys r actor cs db).0 ≡ (change_all cs (sets db)).0)
      × ((perform_all keys r actor cs db).1 ≡ (change_all cs (sets db)).1)
unfolding perform_all change_all
perform_all_refines keys r actor [] db = (refl, refl)
perform_all_refines keys r actor (c ∷ cs) db =
    let (answer, after) = perform_commutes keys r actor db c in
    let (rest, answers) = perform_all_refines keys r actor cs (perform keys r actor c db).0 in
    (
      rest ∙ ap (λ s. (change_all cs s).0) after,
      ap (λ b. b ∷ (perform_all keys r actor cs (perform keys r actor c db).0).1) answer
          ∙ ap (λ bs. accepts c (sets db) ∷ bs) (answers ∙ ap (λ s. (change_all cs s).1) after),
    )
