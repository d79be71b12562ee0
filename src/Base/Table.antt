-- ===== src/Base/Table.antt =====
-- A database table as the list of its rows, found by primary key (SQLAlchemy's `db.get`).
use Prim.Native.Nat.{ℕ}
use mathlib.Core.Path.{◌≡◌}
use mathlib.Core.List.{List, [], ◌∷◌}
use mathlib.Core.Option.{Option, none, some}
use mathlib.Core.Option
use native.Mathlib.Omega.{arith}
use layerscope.Base.Tests.{◌==◌, if◌then◌else◌}

module _ {Row : Type 0} (key : Row → ℕ) where
  unfoldable pub get : ℕ → List Row → Option Row
  get i [] = none
  get i (r ∷ t) = if key r == i then some r else get i t

  -- The mutation of one row's attributes followed by a commit.
  unfoldable pub modify : ℕ → (Row → Row) → List Row → List Row
  modify i f [] = []
  modify i f (r ∷ t) = if key r == i then f r ∷ t else r ∷ modify i f t

  pub get-modify :
      (i j : ℕ) (f : Row → Row) (t : List Row)
      → ((r : Row) → key (f r) ≡ key r)
      → get j (modify i f t) ≡ (if i == j then Option.map f (get j t) else get j t)
  unfolding get modify
  get-modify i j f [] h = ground arith
  get-modify i j f (r ∷ t) h = ground (arith, get-modify i j f t h, h r)

  pub key-get : (i : ℕ) (t : List Row) (r : Row) → get i t ≡ some r → key r ≡ i
  unfolding get
  key-get i [] r h = ground arith
  key-get i (x ∷ t) r h = ground (arith, key-get i t r)

  -- The deletion of one row: `db.delete(row)`.
  unfoldable pub remove : ℕ → List Row → List Row
  remove i [] = []
  remove i (r ∷ t) = if key r == i then t else r ∷ remove i t
