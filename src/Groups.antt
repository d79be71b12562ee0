-- ===== src/Groups.antt =====
-- backend/app/groups.py: named groups of images. `lower` is the database's function on names, and
-- `casefold` is Python's.
pub mod Spec
pub mod Members
pub mod Unique
pub mod Payload
use layerscope.Base.{
  ℕ, suc, ◌+◌, Bool, true, false, not, ◌&&◌, ◌||◌, List, [], ◌∷◌, ◌++◌, Option, none, some, ◌==◌,
  leb, member, discard, any, take, map, length, select, is_some, if◌then◌else◌,
}
use layerscope.Base.Json.{end, field, string, Fields}
use layerscope.Base.Keys.{fromkeys}
use layerscope.Base.Table
use layerscope.Base.Text.{Text, text, same, strip, nonempty, one_of, decimal, join}
use layerscope.Models.{Time, ImageArchive, Scan, Finding, User}
use layerscope.Auth.{AuthDb, Request, Reply, ok, http, first, audit, number_detail, detail}

-- The rows of `image_groups` and `image_group_members`.
pub record ImageGroup : Type 0 where
  pub id : ℕ
  pub name : Text
  pub description : Text
  pub color : Text
  pub created_at : Time
  pub updated_at : Time

pub record ImageGroupMember : Type 0 where
  pub id : ℕ
  pub group_id : ℕ
  pub image_id : ℕ
  pub added_at : Time

pub record GroupDb : Type 0 where
  pub auth : AuthDb
  pub images : List ImageArchive
  pub scans : List Scan
  pub findings : List Finding
  pub groups : List ImageGroup
  pub members : List ImageGroupMember

abbrev pub group_key : ImageGroup → ℕ
group_key g = g.id

-- The bodies of the requests; their lengths are limited by the declarations.
pub record GroupCreate : Type 0 where
  pub name : Text
  pub description : Text
  pub color : Text

abbrev pub colors : List Text
colors =
    text "blue" ∷ text "emerald" ∷ text "amber" ∷ text "rose" ∷ text "violet" ∷ text "slate" ∷ []

-- The database afterwards, and the answer.
abbrev pub Answered : Type 0 → Type 0
Answered A = GroupDb × Reply A

abbrev pub refuse_group : {A : Type 0} → ℕ → Text → GroupDb → Answered A
refuse_group code message db = (db, http code message)

abbrev pub note_group : Text → Request → User → Fields → GroupDb → GroupDb
note_group action r actor details db = record db {
  auth = audit action (text "success") r (some actor.id) details db.auth;
}

-- `sorted`, on numbers.
unfoldable pub insert_number : ℕ → List ℕ → List ℕ
insert_number i [] = i ∷ []
insert_number i (j ∷ js) = let rest = insert_number i js in if leb i j then i ∷ j ∷ js else j ∷ rest

unfoldable pub sorted : List ℕ → List ℕ
unfolding insert_number
sorted [] = []
sorted (i ∷ is) = insert_number i (sorted is)

module _ (lower casefold : Text → Text) where
  -- `clean_group`
  unfoldable pub clean_group : GroupCreate → Reply GroupCreate
  clean_group body =
      let clean_name = strip body.name in
      let clean_color = casefold (strip body.color) in
      if not (nonempty clean_name)
      then http 400 (text "Group name cannot be blank")
      else if not (one_of clean_color colors)
      then http 400 (text "Unsupported group color")
      else ok
          (record { name = clean_name; description = strip body.description; color = clean_color })

  abbrev pub other_than : Option ℕ → ImageGroup → Bool
  other_than none g = true
  other_than (some i) g = not (g.id == i)

  -- The test of `ensure_unique_name`.
  unfoldable pub name_taken : Text → Option ℕ → GroupDb → Bool
  name_taken name excluding_id db =
      any (λ (g : ImageGroup). same (lower g.name) (casefold name) && other_than excluding_id g)
        db.groups

  abbrev pub new_group : Time → ℕ → GroupCreate → ImageGroup
  new_group now new_id body = record {
    id = new_id;
    name = body.name;
    description = body.description;
    color = body.color;
    created_at = now;
    updated_at = now;
  }

  abbrev pub create_clean : Request → ℕ → User → Reply GroupCreate → GroupDb → Answered ImageGroup
  create_clean r new_id actor (http code message) db = refuse_group code message db
  create_clean r new_id actor (ok body) db =
      let g = new_group r.now new_id body in
      if name_taken body.name none db
      then refuse_group 409 (text "A group with that name already exists") db
      else (
        note_group (text "group_create") r actor
            (number_detail (text "group_id") new_id (detail (text "name") body.name))
            (record db { groups = db.groups ++ (g ∷ []) }),
        ok g,
      )

  -- `create_group`
  unfoldable pub create_group : Request → ℕ → User → GroupCreate → GroupDb → Answered ImageGroup
  create_group r new_id actor body db = create_clean r new_id actor (clean_group body) db

  abbrev pub unchanged : GroupCreate → ImageGroup → Bool
  unchanged body g =
      same body.name g.name && same body.description g.description && same body.color g.color

  -- The row is written, with `onupdate=now`, if an attribute changes.
  abbrev pub renamed : Time → GroupCreate → ImageGroup → ImageGroup
  renamed now body g = if unchanged body g then g else record g {
    name = body.name;
    description = body.description;
    color = body.color;
    updated_at = now;
  }

  abbrev pub update_clean :
      Request → User → ImageGroup → Reply GroupCreate → GroupDb → Answered ImageGroup
  update_clean r actor g (http code message) db = refuse_group code message db
  update_clean r actor g (ok body) db =
      if name_taken body.name (some g.id) db
      then refuse_group 409 (text "A group with that name already exists") db
      else (
        note_group (text "group_update") r actor
            (number_detail (text "group_id") g.id (detail (text "name") body.name))
            (record db { groups = Table.modify group_key g.id (renamed r.now body) db.groups }),
        ok (renamed r.now body g),
      )

  abbrev pub update_found :
      Request → User → Option ImageGroup → GroupCreate → GroupDb → Answered ImageGroup
  update_found r actor none body db = refuse_group 404 (text "Group not found") db
  update_found r actor (some g) body db = update_clean r actor g (clean_group body) db

  -- `update_group`
  unfoldable pub update_group : Request → User → ℕ → GroupCreate → GroupDb → Answered ImageGroup
  update_group r actor group_id body db =
      update_found r actor (Table.get group_key group_id db.groups) body db

-- A visible image with this number.
abbrev pub is_visible : List ImageArchive → ℕ → Bool
is_visible images i = any (λ (a : ImageArchive). a.id == i && not a.hidden) images

-- `sorted(set(image_ids) - valid_ids)`
unfoldable pub missing : List ImageArchive → List ℕ → List ℕ
unfolding sorted
missing images ids = sorted (select (λ i. not (is_visible images i)) ids)

abbrev pub unavailable : List ℕ → Text
unavailable ids = text "Unavailable image IDs: " ++ join (text ", ") (map decimal (take 10 ids))

-- New rows; `keys` gives the numbers of the rows.
unfoldable pub new_members : (ℕ → ℕ) → Time → ℕ → ℕ → List ℕ → List ImageGroupMember
new_members keys now group_id n [] = []
new_members keys now group_id n (i ∷ is) =
    record { id = keys n; group_id = group_id; image_id = i; added_at = now }
    ∷ new_members keys now group_id (suc n) is

-- `delete(ImageGroupMember).where(group_id == …)`
abbrev pub drop_members : ℕ → List ImageGroupMember → List ImageGroupMember
drop_members group_id members =
    select (λ (x : ImageGroupMember). not (x.group_id == group_id)) members

abbrev pub replace_checked :
    (ℕ → ℕ) → Request → User → ImageGroup → List ℕ → List ℕ → GroupDb → Answered ImageGroup
replace_checked keys r actor g ids (i ∷ is) db = refuse_group 400 (unavailable (i ∷ is)) db
replace_checked keys r actor g ids [] db = (
  note_group (text "group_members_replace") r actor
      (number_detail (text "group_id") g.id (number_detail (text "member_count") (length ids) end))
      (record db { members = drop_members g.id db.members ++ new_members keys r.now g.id 0 ids }),
  ok g,
)

abbrev pub replace_found :
    (ℕ → ℕ) → Request → User → Option ImageGroup → List ℕ → GroupDb → Answered ImageGroup
replace_found keys r actor none ids db = refuse_group 404 (text "Group not found") db
replace_found keys r actor (some g) ids db =
    replace_checked keys r actor g (fromkeys ids) (missing db.images (fromkeys ids)) db

-- `replace_members`
unfoldable pub replace_members :
    (ℕ → ℕ) → Request → User → ℕ → List ℕ → GroupDb → Answered ImageGroup
replace_members keys r actor group_id ids db =
    replace_found keys r actor (Table.get group_key group_id db.groups) ids db

-- The image is in the group.
unfoldable pub is_member : ℕ → ℕ → List ImageGroupMember → Bool
is_member g i members = any (λ (x : ImageGroupMember). x.group_id == g && x.image_id == i) members

-- What `add_members` answers beside the group: the added and the existing members.
pub record Added : Type 0 where
  pub group : ImageGroup
  pub added_image_ids : List ℕ
  pub already_member_image_ids : List ℕ

abbrev pub add_checked :
    (ℕ → ℕ) → Request → User → ImageGroup → List ℕ → List ℕ → GroupDb → Answered Added
add_checked keys r actor g ids (i ∷ is) db = refuse_group 400 (unavailable (i ∷ is)) db
add_checked keys r actor g ids [] db =
    let existing = λ (i : ℕ). is_member g.id i db.members in
    let additions = select (λ i. not (existing i)) ids in
    (
      note_group (text "group_members_add") r actor
          (number_detail (text "group_id") g.id (
            number_detail (text "requested_count") (length ids)
              (number_detail (text "added_count") (length additions) end)))
          (record db { members = db.members ++ new_members keys r.now g.id 0 additions }),
      ok (record {
        group = g;
        added_image_ids = additions;
        already_member_image_ids = sorted (select existing ids);
      }),
    )

abbrev pub add_found :
    (ℕ → ℕ) → Request → User → Option ImageGroup → List ℕ → GroupDb → Answered Added
add_found keys r actor none ids db = refuse_group 404 (text "Group not found") db
add_found keys r actor (some g) [] db = refuse_group 400 (text "Select at least one image") db
add_found keys r actor (some g) (i ∷ is) db =
    let ids = fromkeys (i ∷ is) in add_checked keys r actor g ids (missing db.images ids) db

-- `add_members`
unfoldable pub add_members : (ℕ → ℕ) → Request → User → ℕ → List ℕ → GroupDb → Answered Added
add_members keys r actor group_id ids db =
    add_found keys r actor (Table.get group_key group_id db.groups) ids db

abbrev pub delete_found : Request → User → Option ImageGroup → GroupDb → Answered ℕ
delete_found r actor none db = refuse_group 404 (text "Group not found") db
delete_found r actor (some g) db = (
  note_group (text "group_delete") r actor
      (number_detail (text "group_id") g.id (detail (text "name") g.name))
      (record db {
        members = drop_members g.id db.members;
        groups = select (λ (x : ImageGroup). not (x.id == g.id)) db.groups;
      }),
  ok g.id,
)

-- `delete_group`
unfoldable pub delete_group : Request → User → ℕ → GroupDb → Answered ℕ
delete_group r actor group_id db = delete_found r actor (Table.get group_key group_id db.groups) db
