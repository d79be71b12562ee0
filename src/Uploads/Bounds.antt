-- ===== src/Uploads/Bounds.antt =====
-- The invariant on the number and the sizes of the archives of an accepted upload.
pub mod Parse
pub mod Flush
pub mod Limits
use layerscope.Base.{
  ℕ, zero, suc, ◌+◌, ◌≤◌, Bool, true, false, not, ◌&&◌, List, [], ◌∷◌, ◌++◌, Option, none, some,
  ◌≡◌, refl, sym, ap, ◌∙◌, arith, Bool-cases, inl, inr, all, length, if◌then◌else◌, ltb, leb, ◌==◌,
  length-append,
}
use layerscope.Base.Text.{Text, text, same, nonempty}
use layerscope.Config.{Settings}
use layerscope.Auth.{Reply, ok, http}
use layerscope.Uploads.{
  File, free_name, taken_names, ArchivePart, MultipartPart, StreamedArchive, Writer, Outside,
  Outcome, Event, part_begin, header_end, headers_finished, part_end, end, header_field,
  header_value, part_data, fail_if, candidate, storage_error,
}
use layerscope.Uploads.Parts.{data_for, data_of}
use layerscope.Uploads.Parts.{
  new_part, open_found, open_status, reserve, store_archive, named_file, check_disposition,
  headers_of, on_current, grown, finish_archive, end_of, on_event,
}
use layerscope.Uploads.Stream.{
  Chunk, Upload, and_then, malformed_upload, on_events, written, write_all, finished_one,
  finish_all, checked, storage_due, flush_events, nonempty_chunk, parse_chunk, on_chunk, on_chunks,
  is_nil, check_end, stream_body, max_body_bytes, Streamed, concluded, new_writer, with_storage,
  with_length, with_boundary, stream_archive_uploads,
}
use layerscope.Uploads.Owned.{archive_of}

abbrev pub total_size : List StreamedArchive → ℕ
total_size [] = 0
total_size (a ∷ rest) = a.size + total_size rest

abbrev pub part_sizes : List ArchivePart → ℕ
part_sizes [] = 0
part_sizes (a ∷ rest) = a.size + part_sizes rest

abbrev pub size_of : Option ArchivePart → ℕ
size_of none = 0
size_of (some a) = a.size

abbrev pub number_of : Option ArchivePart → ℕ
number_of none = 0
number_of (some a) = 1

-- Every archive is within the limit for one.
abbrev pub each_small : Settings → List StreamedArchive → Bool
each_small c [] = true
each_small c (a ∷ rest) = leb a.size c.max_upload_bytes && each_small c rest

abbrev pub parts_small : Settings → List ArchivePart → Bool
parts_small c [] = true
parts_small c (a ∷ rest) = leb a.size c.max_upload_bytes && parts_small c rest

abbrev pub is_small : Settings → Option ArchivePart → Bool
is_small c none = true
is_small c (some a) = leb a.size c.max_upload_bytes

pub record Bounded (c : Settings) (done : List StreamedArchive) (closed : List ArchivePart)
    (current : Option ArchivePart) (count bytes : ℕ) : Type 0 where
  pub number : length done + (length closed + number_of current) ≤ count
  pub most : count ≤ c.max_upload_files
  pub sum : total_size done + (part_sizes closed + size_of current) ≤ bytes
  pub request : bytes ≤ c.max_upload_request_bytes
  pub done_small : each_small c done ≡ true
  pub closed_small : parts_small c closed ≡ true
  pub current_small : is_small c current ≡ true

-- A step that succeeds leaves a writer with `P`.
abbrev pub OkHas : (Writer → Type 0) → Outcome → Type 0
OkHas P (w, ok u) = P w
OkHas P (w, http code message) = Unit

pub record Good (P : Writer → Type 0) (x : Outcome) : Type 0 where
  pub at : OkHas P x

module _ {P Q : Writer → Type 0} where
  pub Good-and_then :
      (x : Outcome) (k : Writer → Outcome)
      → Good P x
      → ((w : Writer) → P w → Good Q (k w))
      → Good Q (and_then x k)
  unfolding and_then
  Good-and_then (w, ok u) k h go_on = go_on w h.at
  Good-and_then (w, http code message) k h go_on = record { at = tt }

pub Good-fail_if :
    {P : Writer → Type 0} (b : Bool) (code : ℕ) (message : Text) (w : Writer) (k : Outcome)
    → (b ≡ false → Good P k)
    → Good P (fail_if b code message w k)
unfolding fail_if
Good-fail_if true code message w k h = record { at = tt }
Good-fail_if false code message w k h = h refl

pub total_size-append :
    (xs : List StreamedArchive) (a : StreamedArchive)
    → total_size (xs ++ (a ∷ [])) ≡ total_size xs + a.size
total_size-append [] a = omega arith
total_size-append (x ∷ xs) a = omega (arith, total_size-append xs a)

pub part_sizes-append :
    (xs : List ArchivePart) (a : ArchivePart) → part_sizes (xs ++ (a ∷ [])) ≡ part_sizes xs + a.size
part_sizes-append [] a = omega arith
part_sizes-append (x ∷ xs) a = omega (arith, part_sizes-append xs a)

module _ (c : Settings) where
  pub each_small-append :
      (xs : List StreamedArchive) (a : StreamedArchive)
      → each_small c (xs ++ (a ∷ [])) ≡ (each_small c xs && leb a.size c.max_upload_bytes)
  each_small-append [] a = ground arith
  each_small-append (x ∷ xs) a = ground (arith, each_small-append xs a)

  pub parts_small-append :
      (xs : List ArchivePart) (a : ArchivePart)
      → parts_small c (xs ++ (a ∷ [])) ≡ (parts_small c xs && leb a.size c.max_upload_bytes)
  parts_small-append [] a = ground arith
  parts_small-append (x ∷ xs) a = ground (arith, parts_small-append xs a)

  abbrev pub Within : Writer → Type 0
  Within w =
      Bounded c w.completed w.pending_finished (archive_of w.current) w.file_count w.file_bytes

  -- The state inside `flush_events`.
  abbrev pub Inside : List ArchivePart → Writer → Type 0
  Inside fs w =
      Bounded c w.completed fs (archive_of w.current) w.file_count w.file_bytes
      × (w.pending_finished ≡ [])
