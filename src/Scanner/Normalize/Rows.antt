-- ===== src/Scanner/Normalize/Rows.antt =====
-- The rows that `normalize` makes of any payload.
use mathlib.Core.Logic.{inl, inr}
use layerscope.Base.{
  ℕ, Bool, true, ◌&&◌, List, [], ◌∷◌, ◌++◌, some, ◌≡◌, refl, arith, ◌==◌, all, Bool-cases,
  Option-cases,
}
use layerscope.Base.Json.{Json, object, Fields, get_key}
use layerscope.Base.Text.{Text, text, one_of, same, nonempty, or_text}
use layerscope.Models.{Finding, Package}
use layerscope.Scanner.Normalize.{
  severities, known_severity, key_text, finding_row, package_rows, finding_rows, normalize_results,
  normalize, dicts, sequence,
}

-- A row that the rest of the program can rely on.
abbrev pub sound_finding : ℕ → Finding → Bool
sound_finding i f = f.scan_id == i && one_of f.severity severities && nonempty f.vulnerability_id

abbrev pub sound_package : ℕ → Package → Bool
sound_package i p = p.scan_id == i

known_severity-known : (s : Text) → one_of (known_severity s) severities ≡ true
unfolding known_severity
known_severity-known s = elim (Bool-cases (one_of s severities)) [
  | inl e ↦ rw e e
  | inr e ↦ rw e (unfold one_of same text in refl)
]

or_text-nonempty : (t : Text) → nonempty (or_text t (text "UNKNOWN")) ≡ true
unfolding text
or_text-nonempty [] = refl
or_text-nonempty (c ∷ s) = refl

all-append {ℓ} :
    {A : Type ℓ} (p : A → Bool) (xs ys : List A)
    → all p xs ≡ true
    → all p ys ≡ true
    → all p (xs ++ ys) ≡ true
all-append p [] ys h k = k
all-append p (x ∷ xs) ys h k = ground (arith, all-append p xs ys)

package_rows_sound :
    (i : ℕ) (target : Text) (ps : List Fields)
    → all (sound_package i) (package_rows i target ps) ≡ true
unfolding package_rows
package_rows_sound i target [] = refl
package_rows_sound i target (p ∷ ps) = ground (arith, package_rows_sound i target ps)

module _ (upper : Text → Text) (safe_url : Json → Text) where
  finding_rows_sound :
      (i : ℕ) (target : Text) (vs : List Fields)
      → all (sound_finding i) (finding_rows upper safe_url i target vs) ≡ true
  unfolding finding_rows finding_row
  finding_rows_sound i target [] = refl
  finding_rows_sound i target (v ∷ vs) = ground (
    arith,
    finding_rows_sound i target vs,
    known_severity-known (upper (key_text "Severity" v)),
    or_text-nonempty (key_text "VulnerabilityID" v),
  )

  results_sound :
      (i : ℕ) (rs : List Fields) (ps : List Package) (fs : List Finding)
      → normalize_results upper safe_url i rs ≡ some (ps, fs)
      → (all (sound_package i) ps ≡ true) × (all (sound_finding i) fs ≡ true)
  unfolding normalize_results
  results_sound i [] ps fs h = ground arith
  results_sound i (r ∷ rs) ps fs h = elim (Option-cases (normalize_results upper safe_url i rs)) [
    | inl e ↦ ground arith
    | inr (rest, e) ↦ ground (
      arith,
      results_sound i rs rest.0 rest.1 e,
      package_rows_sound i (key_text "Target" r) (dicts (sequence (get_key (text "Packages") r))),
      finding_rows_sound i (key_text "Target" r)
          (dicts (sequence (get_key (text "Vulnerabilities") r))),
      all-append (sound_package i)
          (package_rows i (key_text "Target" r) (dicts (sequence (get_key (text "Packages") r))))
          rest.0,
      all-append (sound_finding i)
          (finding_rows upper safe_url i (key_text "Target" r)
            (dicts (sequence (get_key (text "Vulnerabilities") r))))
          rest.1,
    )
  ]

  -- Whatever Trivy prints: if `normalize` returns, every package row and every finding row belongs to
  -- the scan, and every finding has one of the five severities and a nonempty vulnerability id.
  pub normalize_sound :
      (payload : Json) (i : ℕ) (ps : List Package) (fs : List Finding)
      → normalize upper safe_url payload i ≡ some (ps, fs)
      → (all (sound_package i) ps ≡ true) × (all (sound_finding i) fs ≡ true)
  unfolding normalize
  normalize_sound (object payload) i ps fs h =
      ground (arith, results_sound i (dicts (sequence (get_key (text "Results") payload))) ps fs)
  normalize_sound _ i ps fs h = cc
