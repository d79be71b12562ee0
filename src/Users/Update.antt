-- ===== src/Users/Update.antt =====
-- `update_user` leaves an active administrator: the three writes of `apply_update`, one after the
-- other, turn one row and no other.
use layerscope.Base.{
  ℕ, ◌+◌, ◌≡◌, refl, sym, ap, ◌∙◌, ==_refl, Bool, true, false, not, ◌&&◌, ◌||◌, List, Option, none,
  some, ◌==◌, arith, or_else,
}
use layerscope.Base.Table
use layerscope.Base.Text.{Text, same}
use layerscope.Models.{User, Role, viewer, operator, admin}
use layerscope.Auth.{AuthDb, Request, ok, get_user, user_key, audit}
use layerscope.Auth.Accounts.{is_admin, same_role}
use layerscope.Auth.Admins.{count_admins, HasAdmin, active_admin, bit, count-modify}
use layerscope.Auth.Sessions.{revoke_credentials}
use layerscope.Users.{
  UserUpdate, ensure_not_last_admin, apply_update, set_name, set_role, set_active, differs,
  update_found, update_user, chosen_role, chosen_name,
}
use layerscope.Users.Admins.{own_id, passes, on_ok-HasAdmin, unless-HasAdmin}

-- A step of `apply_update`: it turns the row `u` at `i` into `v`, and no other.
abbrev Turns : ℕ → User → User → List User → List User → Type 0
Turns i u v t t' =
    Table.get user_key i t ≡ some u
    → (Table.get user_key i t' ≡ some v)
      × (count_admins t' + bit (active_admin u) ≡ count_admins t + bit (active_admin v))

module _ (r : Request) (u : User) where
  -- The row after each step.
  named : Bool → Text → User
  named true n = record u { display_name = n; updated_at = r.now }
  named false n = u

  moved : Bool → Role → User
  moved true role = record u { role = role; updated_at = r.now }
  moved false role = u

  switched : Bool → Bool → User
  switched true on = record u { active = on; updated_at = r.now }
  switched false on = u

module _ (r : Request) (target u : User) (db : AuthDb) where
  modify-Turns :
      (f : User → User)
      → ((w : User) → (f w).id ≡ w.id)
      → Turns target.id u (f u) db.users (Table.modify user_key target.id f db.users)
  modify-Turns f same e = (
    Table.get-modify user_key target.id target.id f db.users same ∙ rw (==_refl target.id, e) refl,
    count-modify user_key target.id f db.users u e,
  )

  set_name-Turns :
      (b : Bool) (n : Text)
      → Turns target.id u (named r u b n) db.users (set_name b r target n db).users
  unfolding named
  set_name-Turns true n = modify-Turns _ (λ _. refl)
  set_name-Turns false n = λ e. (e, refl)

  set_role-Turns :
      (b : Bool) (role : Role)
      → Turns target.id u (moved r u b role) db.users (set_role b r target role db).users
  unfolding moved revoke_credentials
  set_role-Turns true role = modify-Turns _ (λ _. refl)
  set_role-Turns false role = λ e. (e, refl)

  set_active-Turns :
      (b on : Bool)
      → Turns target.id u (switched r u b on) db.users (set_active b r target on db).users
  unfolding switched revoke_credentials
  set_active-Turns true true = modify-Turns _ (λ _. refl)
  set_active-Turns true false = modify-Turns _ (λ _. refl)
  set_active-Turns false on = λ e. (e, refl)

-- The row that `apply_update` leaves.
abbrev final_row : Request → User → Text → Role → Bool → User
final_row r u n role on =
    switched r
      (moved r (named r u (not (same n u.display_name)) n) (not (same_role role u.role)) role)
      (differs on u.active) on

same_role-is_admin : (a b : Role) → not (same_role a b) ≡ false → is_admin a ≡ is_admin b
same_role-is_admin viewer viewer e = refl
same_role-is_admin operator operator e = refl
same_role-is_admin admin admin e = refl
same_role-is_admin viewer operator e = ground (arith, e)
same_role-is_admin viewer admin e = ground (arith, e)
same_role-is_admin operator viewer e = ground (arith, e)
same_role-is_admin operator admin e = ground (arith, e)
same_role-is_admin admin viewer e = ground (arith, e)
same_role-is_admin admin operator e = ground (arith, e)

differs-eq : (a b : Bool) → differs a b ≡ false → a ≡ b
differs-eq true true e = refl
differs-eq false false e = refl
differs-eq true false e = e
differs-eq false true e = sym e

steps-admin :
    (r : Request) (u : User) (n : Text) (role : Role) (on x y z : Bool)
    → (y ≡ false → is_admin role ≡ is_admin u.role)
    → (z ≡ false → on ≡ u.active)
    → active_admin (switched r (moved r (named r u x n) y role) z on) ≡ (is_admin role && on)
unfolding named moved switched
steps-admin r u n role on x true true f g = refl
steps-admin r u n role on true true false f g = rw (g refl) refl
steps-admin r u n role on false true false f g = rw (g refl) refl
steps-admin r u n role on true false true f g = rw (f refl) refl
steps-admin r u n role on false false true f g = rw (f refl) refl
steps-admin r u n role on true false false f g = rw (f refl, g refl) refl
steps-admin r u n role on false false false f g = rw (f refl, g refl) refl

final_row-admin :
    (r : Request) (u : User) (n : Text) (role : Role) (on : Bool)
    → active_admin (final_row r u n role on) ≡ (is_admin role && on)
final_row-admin r u n role on =
    steps-admin r u n role on (not (same n u.display_name)) (not (same_role role u.role))
      (differs on u.active) (same_role-is_admin role u.role) (differs-eq on u.active)

module _ (casefold : Text → Text) (r : Request) (actor : User) (db : AuthDb) (h : HasAdmin db) where
  apply_update-HasAdmin :
      (i : ℕ) (u : User) (n : Text) (role : Role) (on : Bool)
      → get_user db i ≡ some u
      → ensure_not_last_admin db u role on ≡ ok tt
      → HasAdmin (apply_update r actor u n role on db)
  unfolding apply_update audit
  apply_update-HasAdmin i u n role on e p =
      let renames = not (same n u.display_name) in
      let moves = not (same_role role u.role) in
      let (e1, c1) = set_name-Turns r u u db renames n (own_id i db u e) in
      let (e2, c2) =
        set_role-Turns r u (named r u renames n) (set_name renames r u n db) moves role e1 in
      let (_, c3) =
        set_active-Turns r u (moved r (named r u renames n) moves role)
          (set_role moves r u role (set_name renames r u n db)) (differs on u.active) on e2 in
      omega (arith, h, c1, c2, c3, passes db u role on p, ap bit (final_row-admin r u n role on))

  update_found-HasAdmin :
      (i : ℕ) (body : UserUpdate) (o : Option User)
      → get_user db i ≡ o
      → HasAdmin (update_found casefold r actor body o db).0
  update_found-HasAdmin i body none e = h
  update_found-HasAdmin i body (some u) e =
      on_ok-HasAdmin (chosen_role casefold u body.role) db _ h (λ role _.
        unless-HasAdmin
          (u.id == actor.id && (not (is_admin role) || not (or_else body.active u.active))) _ _ db _
          h
          (unless-HasAdmin (or_else body.active u.active && not u.totp_enabled) _ _ db _ h (
            on_ok-HasAdmin (ensure_not_last_admin db u role (or_else body.active u.active)) db _ h
              (λ _ p. on_ok-HasAdmin (chosen_name u body.display_name) db _ h (λ name _.
                apply_update-HasAdmin i u name role (or_else body.active u.active) e p)))))

  -- Whatever an administrator asks of `update_user`, an active administrator remains.
  pub update_user-HasAdmin :
      (i : ℕ) (body : UserUpdate) → HasAdmin (update_user casefold r actor i body db).0
  unfolding update_user
  update_user-HasAdmin i body = update_found-HasAdmin i body (get_user db i) refl
