-- ===== src/Scanner/Insert.antt =====
-- `bulk_insert_models` in batches is one insertion.
use layerscope.Base.{
  ℕ, zero, suc, ◌+◌, ◌-◌, ◌*◌, ◌/◌, ◌≤◌, ◌≡◌, refl, sym, ◌∙◌, List, [], ◌∷◌, ◌++◌, arith, length,
  take, drop, length-drop,
}
use mathlib.Core.List.{append_assoc, append-nil}
use layerscope.Scanner.Results.{bulk_insert, insert_models, normalized_insert_batch}

module _ {A : Type 0} where
  take-append-drop : (n : ℕ) (xs : List A) → take n xs ++ drop n xs ≡ xs
  take-append-drop zero xs = refl
  take-append-drop (suc n) [] = refl
  take-append-drop (suc n) (x ∷ xs) = rw (take-append-drop n xs)

  empty_of_length : (xs : List A) → length xs ≤ 0 → xs ≡ []
  empty_of_length [] h = refl
  empty_of_length (x ∷ xs) h = absurd (omega arith)

  bulk_insert-append :
      (rounds size : ℕ) (rows items : List A)
      → length items ≤ rounds * size
      → bulk_insert rounds size rows items ≡ rows ++ items
  unfolding bulk_insert
  bulk_insert-append zero size rows items h =
      rw (empty_of_length items (omega arith)) (sym (append-nil rows))
  bulk_insert-append (suc rounds) size rows items h =
      bulk_insert-append rounds size (rows ++ take size items) (drop size items)
        (grind (arith, length-drop size items))
      ∙ rw append_assoc (rw take-append-drop)

  -- The batches of 5000 rows insert every item once, in order, after the rows that were there.
  pub insert_models-append : (rows items : List A) → insert_models rows items ≡ rows ++ items
  insert_models-append rows items =
      bulk_insert-append ((length items + (normalized_insert_batch - 1)) / normalized_insert_batch)
        normalized_insert_batch rows items (omega arith)
