-- ===== src/Tests/Uploads.antt =====
-- Runs of the uploads.
use layerscope.Base.{ℕ, zero, suc, ◌≤◌, ◌≡◌, refl, false, List, [], ◌∷◌, none, some, arith, ◌<◌}
use layerscope.Base.Text.{Text, text, same, one_of}
use layerscope.Auth.{ok}
use layerscope.Uploads.{
  File, Outside, Event, part_begin, header_field, header_value, header_end, headers_finished,
  part_data, part_end, end, path_name, path_stem, candidate, free_name,
}
use layerscope.Uploads.Stream.{Upload, new_writer, stream_archive_uploads}
use layerscope.Uploads.{lookup, fail_if, utf8_length, append_to, move_file, unlink}
use layerscope.Uploads.Parts.{on_event, bad_name}
use layerscope.Uploads.Stream.{
  stream_body, and_then, on_chunks, on_chunk, on_events, cleanup, finish_all, flush_events,
  write_all,
}
use layerscope.Base.Text.{strip, replace, last, decimal, is_space, lstrip, starts_with}
use layerscope.Uploads.Names.{free_name_terminates}
use layerscope.Uploads.Kept.{Keeps, stream_archive_uploads-Keeps}
use layerscope.Uploads.Bounds.Limits.{Limited, stream_archive_uploads-Limited}
use layerscope.Tests.Samples.{same_text, sample_settings}

-- The random name of a draw is a row of that many letters.
letters : ℕ → Text
letters zero = []
letters (suc n) = b'a' ∷ letters n

abbrev sample_disk : Outside
sample_disk = record {
  parse_options_header = λ t. record {
    value = text "form-data";
    name = some (text "files");
    filename = some (text "a.tar");
  };
  decode_header = same_text;
  lower = same_text;
  uuid = letters;
  open_error = λ n. none;
  write_error = λ n. none;
  finish_error = λ n. none;
  storage = λ files. ok tt;
}

abbrev sample_events : List Event
sample_events =
    part_begin
    ∷ header_field (text "content-disposition")
    ∷ header_value (text "form-data")
    ∷ header_end
    ∷ headers_finished
    ∷ part_data (1 ∷ 2 ∷ [])
    ∷ part_end
    ∷ end
    ∷ []

abbrev sample_upload : Upload
sample_upload = record {
  content_type = text "multipart/form-data";
  boundary = some (text "b");
  content_length = some (false, 9);
  chunks = record { size = 9; events = sample_events; consumed = 9; malformed = false } ∷ [];
  final_events = [];
  final_malformed = false;
}

-- The directory has an archive of the same name.
abbrev sample_files : List File
sample_files = record { name = text "a.tar"; content = 7 ∷ [] } ∷ []

stream_archive_uploads-Keeps_example :
    Keeps sample_files
      (stream_archive_uploads sample_settings sample_disk 3 sample_upload sample_files)
stream_archive_uploads-Keeps_example =
    stream_archive_uploads-Keeps sample_settings sample_disk 3 sample_upload sample_files

stream_archive_uploads-Limited_example :
    Limited sample_settings
      (stream_archive_uploads sample_settings sample_disk 3 sample_upload sample_files)
stream_archive_uploads-Limited_example =
    stream_archive_uploads-Limited sample_settings sample_disk 3 sample_upload sample_files

path_name_test : path_name (text "x/../a b.tar/./") ≡ text "a b.tar"
unfolding path_name text same
path_name_test = refl

path_stem_test : path_stem (text "a.b.tar") ≡ text "a.b"
unfolding path_stem text
path_stem_test = refl

first_two_differ :
    (i j : ℕ)
    → i < j
    → j ≤ 1
    → same (candidate sample_disk (text "a.tar") 3 i) (candidate sample_disk (text "a.tar") 3 j)
      ≡ false
unfolding candidate text same path_stem
first_two_differ zero zero h k = absurd (omega (arith, h))
first_two_differ zero (suc zero) h k = refl
first_two_differ zero (suc (suc j)) h k = absurd (omega (arith, k))
first_two_differ (suc i) j h k = absurd (omega (arith, h, k))

free_name_terminates_example :
    (n : ℕ) × ((free_name 2 (candidate sample_disk (text "a.tar") 3) (text "a.tar" ∷ []) 0 ≡ some n)
      × (one_of (candidate sample_disk (text "a.tar") 3 n) (text "a.tar" ∷ []) ≡ false))
free_name_terminates_example =
    free_name_terminates sample_disk (text "a.tar") (new_writer sample_files 3) first_two_differ

-- The upload is accepted, under a name that was free.
upload_test :
    (stream_archive_uploads sample_settings sample_disk 3 sample_upload sample_files).1
    ≡ ok (record { name = text "a-aaa.tar"; size = 2 } ∷ [])
unfolding stream_archive_uploads text same stream_body and_then on_chunks on_chunk fail_if on_events
    on_event bad_name strip path_name replace last utf8_length free_name one_of decimal is_space
    lstrip starts_with cleanup finish_all flush_events write_all append_to candidate lookup
    move_file path_stem unlink letters
upload_test = refl
