-- ===== src/Reports/Logo.antt =====
-- The logos that `sanitize_report_logo` accepts.
use layerscope.Base.{
  ◌*◌, ◌≤◌, ◌≡◌, refl, arith, true, [], ◌∷◌, Option, none, some, ltb, length, Bool-cases, inl, inr,
}
use layerscope.Base.Text.{Text, text, same, nonempty, one_of, strip}
use layerscope.Reports.{
  Checked, accepted, logo_error, Format, Picture, media_type, encoded, too_big, pictured,
  declared_as, detect, before_semicolon, sanitize_report_logo, max_report_logo_bytes,
  max_sanitized_logo_bytes,
}

-- An image with one frame and within the limits on its size.
abbrev pub IsSmall : Option Picture → Type 0
IsSmall none = ⊥
IsSmall (some p) =
    (p.single ≡ true)
    × (1 ≤ p.width)
    × (p.width ≤ 2000)
    × (1 ≤ p.height)
    × (p.height ≤ 1000)
    × (p.width * p.height ≤ 2000000)

module _ (casefold : Text → Text) (open_image : Text → Option Picture)
    (encode : Text → Option Text) where
  -- What is accepted is the new encoding of a small image, and is short.
  abbrev pub IsSafe : Text → Checked Text → Type 0
  IsSafe s (logo_error e) = Unit
  IsSafe s (accepted x) =
      IsSmall (open_image s) × (encode s ≡ some x) × (length x ≤ max_sanitized_logo_bytes)

  encoded-Safe :
      (s : Text) (o : Option Text)
      → encode s ≡ o
      → IsSmall (open_image s)
      → IsSafe s (encoded casefold open_image encode o)
  encoded-Safe s none e h = tt
  encoded-Safe s (some x) e h = elim (Bool-cases (ltb max_sanitized_logo_bytes (length x))) [
    | inl f ↦ rw f tt
    | inr f ↦ rw f (h, e, ground (arith, f))
  ]

  pictured-Safe :
      (s : Text) (o : Option Picture)
      → open_image s ≡ o
      → IsSafe s (pictured casefold open_image encode s o)
  pictured-Safe s none e = tt
  pictured-Safe s (some p) e = elim (Bool-cases p.single) [
    | inr f ↦ rw f tt
    | inl f ↦ elim (Bool-cases (too_big casefold open_image encode p)) [
      | inl g ↦ rw (f, g) tt
      | inr g ↦
          rw (f, g)
            (encoded-Safe s (encode s) refl (
              rw e (
                f,
                ground (arith, g),
                ground (arith, g),
                ground (arith, g),
                ground (arith, g),
                ground (arith, g),
              )))
    ]
  ]

  declared_as-Safe :
      (s declared : Text) (d : Checked Format)
      → IsSafe s (declared_as casefold open_image encode s declared d)
  declared_as-Safe s declared (logo_error e) = tt
  declared_as-Safe s declared (accepted f) = elim (Bool-cases (same declared (media_type f))) [
    | inl e ↦ rw e (pictured-Safe s (open_image s) refl)
    | inr e ↦ rw e tt
  ]

  -- A logo that is accepted has been decoded as a single image of at most 2000 by 1000 and two million
  -- pixels, and what is kept of it is the new encoding of that image, of at most eight mebibytes.
  pub sanitize_report_logo-Safe :
      (s content_type : Text)
      → IsSafe s (sanitize_report_logo casefold open_image encode s content_type)
  unfolding sanitize_report_logo
  sanitize_report_logo-Safe s content_type =
      let declared = casefold (strip (before_semicolon content_type)) in
      elim (Bool-cases (nonempty s)) [
        | inr e ↦ rw e tt
        | inl e ↦ elim (Bool-cases (ltb max_report_logo_bytes (length s))) [
          | inl f ↦ rw (e, f) tt
          | inr f ↦
              elim (Bool-cases (one_of declared (text "image/png" ∷ text "image/jpeg" ∷ []))) [
                | inr g ↦ rw (e, f, g) tt
                | inl g ↦ rw (e, f, g) (declared_as-Safe s declared (detect s))
              ]
        ]
      ]
