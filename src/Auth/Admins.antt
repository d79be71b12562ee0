-- ===== src/Auth/Admins.antt =====
-- How many active administrators there are: `select(func.count()).select_from(User).where(…)`, and
-- what a change of one row does to a count.
use layerscope.Base.{
  ℕ, ◌+◌, ◌≤◌, ◌≡◌, Bool, true, false, ◌&&◌, List, [], ◌∷◌, some, length, select, arith,
}
use layerscope.Base.Table
use layerscope.Models.{User}
use layerscope.Auth.{AuthDb}
use layerscope.Auth.Accounts.{is_admin}

abbrev pub active_admin : User → Bool
active_admin u = is_admin u.role && u.active

unfoldable pub count_admins : List User → ℕ
count_admins users = length (select active_admin users)

unfoldable pub count_active : List User → ℕ
count_active users = length (select (λ (u : User). u.active) users)

abbrev pub HasAdmin : AuthDb → Type 0
HasAdmin db = 1 ≤ count_admins db.users

abbrev pub bit : Bool → ℕ
bit true = 1
bit false = 0

module _ (key : User → ℕ) (i : ℕ) where
  pub count-modify :
      (f : User → User) (users : List User) (u : User)
      → Table.get key i users ≡ some u
      → count_admins (Table.modify key i f users) + bit (active_admin u)
        ≡ count_admins users + bit (active_admin (f u))
  unfolding count_admins Table.get Table.modify
  count-modify f [] u h = ground arith
  count-modify f (v ∷ users) u h = ground (arith, h, count-modify f users u)

  pub count-remove :
      (users : List User) (u : User)
      → Table.get key i users ≡ some u
      → count_admins (Table.remove key i users) + bit (active_admin u) ≡ count_admins users
  unfolding count_admins Table.get Table.remove
  count-remove [] u h = ground arith
  count-remove (v ∷ users) u h = ground (arith, h, count-remove users u)

  -- A row that stays an active administrator if it was one takes none away.
  pub count-modify-le :
      (f : User → User) (users : List User)
      → ((u : User) → bit (active_admin u) ≤ bit (active_admin (f u)))
      → count_admins users ≤ count_admins (Table.modify key i f users)
  unfolding count_admins Table.modify
  count-modify-le f [] h = ground arith
  count-modify-le f (u ∷ users) h = ground (arith, h u, count-modify-le f users h)

pub count_admins-active : (users : List User) → count_admins users ≤ count_active users
unfolding count_admins count_active
count_admins-active [] = ground arith
count_admins-active (u ∷ users) = ground (arith, count_admins-active users)
