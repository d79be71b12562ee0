-- ===== src/Reports/Container.antt =====
-- The containers that `_strict_png_container` accepts.
use layerscope.Base.{
  ℕ, zero, suc, ◌+◌, ◌/◌, ◌%◌, ◌≤◌, ◌<◌, ◌≡◌, refl, sym, ap, ◌∙◌, arith, true, false, List, [], ◌∷◌,
  ◌++◌, ltb, leb, length, length-append, take, drop,
}
use layerscope.Base.Text.{Text, same, same_refl, starts_with}
use layerscope.Reports.{from_bytes, slice, png_signature, iend, walk_chunks, strict_png_container}

-- A chunk of a PNG file, and how it is written: its size, type, body and checksum.
pub record Chunk : Type 0 where
  pub chunk_type : Text
  pub body : Text
  pub checksum : Text

abbrev pub four_bytes : ℕ → Text
four_bytes n = (n / 16777216) ∷ (n / 65536 % 256) ∷ (n / 256 % 256) ∷ (n % 256) ∷ []

unfoldable pub write_chunk : Chunk → Text
write_chunk c = four_bytes (length c.body) ++ (c.chunk_type ++ (c.body ++ c.checksum))

unfoldable pub write_chunks : List Chunk → Text
write_chunks [] = []
write_chunks (c ∷ cs) = write_chunk c ++ write_chunks cs

unfoldable pub write_png : List Chunk → Text → Text
write_png cs checksum =
    png_signature
    ++ (write_chunks cs
        ++ write_chunk (record { chunk_type = iend; body = []; checksum = checksum }))

abbrev pub IsWritable : Chunk → Type 0
IsWritable c =
    (length c.chunk_type ≡ 4) × (same c.chunk_type iend ≡ false) × (length c.checksum ≡ 4)

from_four_bytes : (n : ℕ) → from_bytes (four_bytes n) ≡ n
unfolding from_bytes
from_four_bytes n = omega arith

take-append : (xs ys : Text) → take (length xs) (xs ++ ys) ≡ xs
take-append [] ys = refl
take-append (x ∷ xs) ys = ap (λ zs. x ∷ zs) (take-append xs ys)

drop-append : (k : ℕ) (xs ys : Text) → drop (length xs + k) (xs ++ ys) ≡ drop k ys
drop-append k [] ys = ap (λ n. drop n ys) (omega arith)
drop-append k (x ∷ xs) ys =
    let shifted : length (x ∷ xs) + k ≡ suc (length xs + k) = omega arith in
    ap (λ n. drop n (x ∷ (xs ++ ys))) shifted ∙ drop-append k xs ys

-- A text of four characters that begins another one.
take_four : (xs ys : Text) → length xs ≡ 4 → take 4 (xs ++ ys) ≡ xs
take_four xs ys h = ap (λ n. take n (xs ++ ys)) (sym h) ∙ take-append xs ys

append_assoc : (xs ys zs : Text) → (xs ++ ys) ++ zs ≡ xs ++ (ys ++ zs)
append_assoc [] ys zs = refl
append_assoc (x ∷ xs) ys zs = ap (λ t. x ∷ t) (append_assoc xs ys zs)

append_nil : (xs : Text) → xs ++ [] ≡ xs
append_nil [] = refl
append_nil (x ∷ xs) = ap (λ t. x ∷ t) (append_nil xs)

signed : (rest : Text) → starts_with (png_signature ++ rest) png_signature ≡ true
unfolding starts_with
signed rest = ground arith

length-write_chunk :
    (c : Chunk)
    → length c.chunk_type ≡ 4
    → length c.checksum ≡ 4
    → length (write_chunk c) ≡ 12 + length c.body
unfolding write_chunk
length-write_chunk c h k = omega (
  arith,
  h,
  k,
  length-append c.chunk_type (c.body ++ c.checksum),
  length-append c.body c.checksum,
)

-- What the loop reads at a chunk.
module _ (before rest : Text) (c : Chunk) where
  abbrev whole : Text
  whole = before ++ (write_chunk c ++ rest)

  reads_size : from_bytes (slice (length before) 4 whole) ≡ length c.body
  unfolding write_chunk
  reads_size =
      let here = drop-append 0 before (write_chunk c ++ rest) in
      let start : length before ≡ length before + 0 = omega arith in
      ap (λ n. from_bytes (take 4 (drop n whole))) start
      ∙ (ap (λ s. from_bytes (take 4 s)) here ∙ from_four_bytes (length c.body))

  reads_type : length c.chunk_type ≡ 4 → slice (length before + 4) 4 whole ≡ c.chunk_type
  unfolding write_chunk
  reads_type h =
      ap (take 4) (drop-append 4 before (write_chunk c ++ rest))
      ∙ (ap (take 4) (append_assoc c.chunk_type (c.body ++ c.checksum) rest)
          ∙ take_four c.chunk_type ((c.body ++ c.checksum) ++ rest) h)

  length-whole :
      length c.chunk_type ≡ 4
      → length c.checksum ≡ 4
      → length whole ≡ length before + (12 + length c.body) + length rest
  length-whole h k = omega (
    arith,
    length-append before (write_chunk c ++ rest),
    length-append (write_chunk c) rest,
    length-write_chunk c h k,
  )

  -- A chunk that is not the last is passed.
  passes :
      (rounds : ℕ)
      → IsWritable c
      → walk_chunks (suc rounds) (length before) whole
        ≡ walk_chunks rounds (length before + 12 + length c.body) whole
  unfolding walk_chunks
  passes rounds (h, other, k) =
      let fits : leb (length before + 12) (length whole) ≡ true =
        ground (arith, length-whole h k) in
      let inside : ltb (length whole) (length before + 12 + length c.body) ≡ false =
        ground (arith, length-whole h k) in
      rw (reads_size, reads_type h, fits, inside, other) refl

  -- The last chunk is accepted at the end of the bytes.
  ends :
      (rounds : ℕ)
      → c.chunk_type ≡ iend
      → length c.body ≡ 0
      → length c.checksum ≡ 4
      → length rest ≡ 0
      → walk_chunks (suc rounds) (length before) whole ≡ true
  unfolding walk_chunks
  ends rounds t b k r =
      let h : length c.chunk_type ≡ 4 = ap length t in
      let fits : leb (length before + 12) (length whole) ≡ true =
        ground (arith, length-whole h k) in
      let inside : ltb (length whole) (length before + 12 + length c.body) ≡ false =
        ground (arith, length-whole h k) in
      let last : same c.chunk_type iend ≡ true = rw t (same_refl iend) in
      rw (reads_size, reads_type h, fits, inside, last) (ground (arith, b, r, length-whole h k))

abbrev pub AllWritable : List Chunk → Type 0
AllWritable [] = Unit
AllWritable (c ∷ cs) = IsWritable c × AllWritable cs

-- The chunk that ends a file.
abbrev pub end_chunk : Text → Chunk
end_chunk checksum = record { chunk_type = iend; body = []; checksum = checksum }

walk-write_chunks :
    (cs : List Chunk) (checksum before : Text) (rounds : ℕ)
    → AllWritable cs
    → length checksum ≡ 4
    → length cs < rounds
    → walk_chunks rounds
        (length before)
        (before ++ (write_chunks cs ++ write_chunk (end_chunk checksum)))
      ≡ true
unfolding write_chunks
walk-write_chunks cs checksum before zero all k h = absurd (omega (arith, h))
walk-write_chunks [] checksum before (suc rounds) all k h =
    ap (λ s. walk_chunks (suc rounds) (length before) (before ++ s))
      (sym (append_nil (write_chunk (end_chunk checksum))))
    ∙ ends before [] (end_chunk checksum) rounds refl refl k refl
walk-write_chunks (c ∷ cs) checksum before (suc rounds) (w, all) k h =
    let rest = write_chunks cs ++ write_chunk (end_chunk checksum) in
    let (t, other, e) = w in
    let offset : length before + 12 + length c.body ≡ length (before ++ write_chunk c) =
      omega (arith, length-append before (write_chunk c), length-write_chunk c t e) in
    ap (λ s. walk_chunks (suc rounds) (length before) (before ++ s))
      (append_assoc (write_chunk c) (write_chunks cs) (write_chunk (end_chunk checksum)))
    ∙ (passes before rest c rounds w
        ∙ (ap (λ n. walk_chunks rounds n (before ++ (write_chunk c ++ rest))) offset
            ∙ (ap (walk_chunks rounds (length (before ++ write_chunk c)))
                  (sym (append_assoc before (write_chunk c) rest))
                ∙ walk-write_chunks cs checksum (before ++ write_chunk c) rounds all k
                    (omega (arith, h)))))

enough : (cs : List Chunk) → AllWritable cs → length cs ≤ length (write_chunks cs)
unfolding write_chunks
enough [] all = omega arith
enough (c ∷ cs) ((t, other, e), all) = omega (
  arith,
  enough cs all,
  length-append (write_chunk c) (write_chunks cs),
  length-write_chunk c t e,
)

-- Every file that is written as the signature, chunks of other types than IEND with four bytes of type
-- and of checksum, and an empty IEND chunk is accepted as a PNG container.
pub strict_png_container-write_png :
    (cs : List Chunk) (checksum : Text)
    → AllWritable cs
    → length checksum ≡ 4
    → strict_png_container (write_png cs checksum) ≡ true
unfolding strict_png_container write_png
strict_png_container-write_png cs checksum all k =
    let rest = write_chunks cs ++ write_chunk (end_chunk checksum) in
    rw (signed rest) (
      walk-write_chunks cs checksum png_signature (length (png_signature ++ rest)) all k (
        omega (
          arith,
          enough cs all,
          length-append png_signature rest,
          length-append (write_chunks cs) (write_chunk (end_chunk checksum)),
        )))
