-- ===== src/Uploads/Names.antt =====
-- The files of the upload directory by name, and the search for a free name.
use layerscope.Base.{
  ℕ, zero, suc, ◌+◌, ◌≤◌, ◌<◌, true, false, not, ◌||◌, List, [], ◌∷◌, ◌++◌, Option, none, some, ◌≡◌,
  refl, sym, ap, ◌∙◌, arith, Bool-cases, inl, inr, is_some, ◌⊎◌, Option-cases, length-select-le,
  select, length, if◌then◌else◌,
}
use layerscope.Base.Text.{Text, same, same→eq, one_of}
use layerscope.Uploads.{
  File, lookup, unlink, append_to, put_content, move_file, file_names, free_name, Outside, Writer,
  candidate, taken_names,
}

pub same_sym : (s t : Text) → same s t ≡ same t s
unfolding same
same_sym [] [] = refl
same_sym [] (d ∷ t) = refl
same_sym (c ∷ s) [] = refl
same_sym (c ∷ s) (d ∷ t) = ground (arith, same_sym s t)

module _ (n k : Text) (other : same k n ≡ false) where
  pub lookup-append_to :
      (payload : Text) (files : List File) → lookup n (append_to k payload files) ≡ lookup n files
  unfolding lookup append_to
  lookup-append_to payload [] = refl
  lookup-append_to payload (f ∷ files) = elim (Bool-cases (same f.name k)) [
    | inl e ↦
        let not_n : same f.name n ≡ false = ap (λ x. same x n) (same→eq f.name k e) ∙ other in
        rw (e, not_n) (lookup-append_to payload files)
    | inr e ↦ rw e (ground (arith, lookup-append_to payload files))
  ]

pub lookup-unlink :
    (n k : Text) (files : List File)
    → lookup n (unlink k files) ≡ (if same k n then none else lookup n files)
unfolding lookup unlink
lookup-unlink n k [] = ground arith
lookup-unlink n k (f ∷ files) = elim (Bool-cases (same f.name k)) [
  | inl e ↦
      let same_n : same f.name n ≡ same k n = ap (λ x. same x n) (same→eq f.name k e) in
      ground (arith, e, same_n, lookup-unlink n k files)
  | inr e ↦ elim (Bool-cases (same f.name n)) [
    | inl g ↦
        let not_k : same k n ≡ false =
          same_sym k n ∙ (ap (λ x. same x k) (sym (same→eq f.name n g)) ∙ e) in
        ground (arith, e, g, not_k)
    | inr g ↦ ground (arith, e, g, lookup-unlink n k files)
  ]
]

put_other :
    (n path : Text) (o : Option Text) (files : List File)
    → same path n ≡ false
    → lookup n (put_content path o files) ≡ lookup n files
unfolding lookup
put_other n path none files h = refl
put_other n path (some content) files h = rw h refl

pub lookup-move_file :
    (n temporary path : Text) (files : List File)
    → same temporary n ≡ false
    → same path n ≡ false
    → lookup n (move_file temporary path files) ≡ lookup n files
unfolding move_file
lookup-move_file n temporary path files h k =
    put_other n path (lookup temporary files) (unlink path (unlink temporary files)) k
    ∙ ((lookup-unlink n path (unlink temporary files) ∙ rw k refl)
        ∙ (lookup-unlink n temporary files ∙ rw h refl))

-- A name that no file has.
pub absent_name :
    (n : Text) (files : List File) → one_of n (file_names files) ≡ false → lookup n files ≡ none
unfolding one_of lookup
absent_name n [] h = refl
absent_name n (f ∷ files) h = ground (arith, h, same_sym f.name n, absent_name n files)

pub one_of-append :
    (n : Text) (xs ys : List Text) → one_of n (xs ++ ys) ≡ (one_of n xs || one_of n ys)
unfolding one_of
one_of-append n [] ys = refl
one_of-append n (x ∷ xs) ys = ground (arith, one_of-append n xs ys)

abbrev found_at : ℕ → Option ℕ → ℕ
found_at n none = n
found_at n (some k) = k

-- The name that the search returns is free.
pub free_name-free :
    (rounds : ℕ) (names : ℕ → Text) (taken : List Text) (n k : ℕ)
    → free_name rounds names taken n ≡ some k
    → one_of (names k) taken ≡ false
unfolding free_name
free_name-free zero names taken n k h = ground (arith, h)
free_name-free (suc rounds) names taken n k h = elim (Bool-cases (one_of (names n) taken)) [
  | inl e ↦ free_name-free rounds names taken (suc n) k (rw e refl ∙ h)
  | inr e ↦
      let found : some n ≡ some k = rw e refl ∙ h in
      let here : k ≡ n = ap (found_at n) (sym found) in ap (λ i. one_of (names i) taken) here ∙ e
]

-- Names that differ from one that is taken are searched as if that one were not.
abbrev drop_name : Text → List Text → List Text
drop_name k taken = select (λ n. not (same k n)) taken

one_of-drop_name :
    (n k : Text) (taken : List Text)
    → same k n ≡ false
    → one_of n (drop_name k taken) ≡ one_of n taken
unfolding one_of
one_of-drop_name n k [] h = refl
one_of-drop_name n k (t ∷ taken) h = elim (Bool-cases (same k t)) [
  | inl e ↦
      let not_n : same n t ≡ false = ap (same n) (sym (same→eq k t e)) ∙ (same_sym n k ∙ h) in
      ground (arith, e, not_n, one_of-drop_name n k taken h)
  | inr e ↦ ground (arith, e, one_of-drop_name n k taken h)
]

length-drop_name :
    (k : Text) (taken : List Text)
    → one_of k taken ≡ true
    → suc (length (drop_name k taken)) ≤ length taken
unfolding one_of
length-drop_name k [] h = ground (arith, h)
length-drop_name k (t ∷ taken) h = elim (Bool-cases (same k t)) [
  | inl e ↦ rw e (omega (arith, length-select-le (λ n. not (same k n)) taken))
  | inr e ↦ rw e (omega (arith, length-drop_name k taken (rw e refl ∙ h)))
]

free_name-drop_name :
    (rounds bound : ℕ) (names : ℕ → Text) (taken : List Text) (k n : ℕ)
    → ((i j : ℕ) → i < j → j < bound → same (names i) (names j) ≡ false)
    → n + rounds ≤ bound
    → k < n
    → free_name rounds names (drop_name (names k) taken) n ≡ free_name rounds names taken n
unfolding free_name
free_name-drop_name zero bound names taken k n distinct b h = refl
free_name-drop_name (suc rounds) bound names taken k n distinct b h =
    rw
      (
        one_of-drop_name (names n) (names k) taken (distinct k n h (omega (arith, b))),
        free_name-drop_name rounds bound names taken k (suc n) distinct (omega (arith, b))
            (omega (arith, h)),
      )
      refl

-- Of names that are pairwise different as far as they are tried, one is free within one more round than names are taken.
pub free_name-some :
    (rounds bound : ℕ) (names : ℕ → Text) (taken : List Text) (n : ℕ)
    → ((i j : ℕ) → i < j → j < bound → same (names i) (names j) ≡ false)
    → n + rounds ≤ bound
    → length taken < rounds
    → is_some (free_name rounds names taken n) ≡ true
unfolding free_name
free_name-some zero bound names taken n distinct b h = absurd (omega (arith, h))
free_name-some (suc rounds) bound names taken n distinct b h =
    elim (Bool-cases (one_of (names n) taken)) [
      | inr e ↦ rw e refl
      | inl e ↦
          rw
            (
              e,
              sym (
                  free_name-drop_name rounds bound names taken n (suc n) distinct (omega (arith, b))
                    (omega arith)),
            )
            (free_name-some rounds bound names (drop_name (names n) taken) (suc n) distinct
              (omega (arith, b)) (omega (arith, h, length-drop_name (names n) taken e)))
    ]

-- The loop over file names ends, and with a name that no file and no reservation has: one more
-- round than there are taken names is enough when as many tried names are pairwise different.
pub free_name_terminates :
    (o : Outside) (safe_name : Text) (w : Writer)
    → ((i j : ℕ)
        → i < j
        → j ≤ length (taken_names w)
        → same (candidate o safe_name w.draws i) (candidate o safe_name w.draws j) ≡ false)
    → (n : ℕ) × ((free_name
            (suc (length (taken_names w)))
            (candidate o safe_name w.draws)
            (taken_names w)
            0
          ≡ some n)
        × (one_of (candidate o safe_name w.draws n) (taken_names w) ≡ false))
free_name_terminates o safe_name w distinct = found (Option-cases search)
  where
    search : Option ℕ
    search =
        free_name (suc (length (taken_names w))) (candidate o safe_name w.draws) (taken_names w) 0

    found :
        (search ≡ none) ⊎ ((n : ℕ) × (search ≡ some n))
        → (n : ℕ) × ((search ≡ some n)
            × (one_of (candidate o safe_name w.draws n) (taken_names w) ≡ false))
    found (inr (n, e)) =
        (n, (e, free_name-free _ (candidate o safe_name w.draws) (taken_names w) 0 n e))
    found (inl e) =
        let ends =
          free_name-some (suc (length (taken_names w))) (suc (length (taken_names w)))
            (candidate o safe_name w.draws) (taken_names w) 0
            (λ i j h k. distinct i j h (omega (arith, k))) (omega arith) (omega arith) in
        absurd (ground (arith, sym (ap is_some e) ∙ ends))
