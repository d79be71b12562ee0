-- ===== src/Uploads/Stream.antt =====
-- backend/app/uploads.py: flush_events, cleanup and stream_archive_uploads. The parser is given by
-- the callbacks that it makes for each chunk of the body.
use layerscope.Base.{
  ℕ, ◌+◌, ◌-◌, ◌*◌, Bool, true, false, not, ◌&&◌, List, [], ◌∷◌, ◌++◌, Option, none, some, ◌==◌,
  ltb, leb, if◌then◌else◌,
}
use layerscope.Base.Text.{Text, text, same, nonempty}
use layerscope.Config.{Settings}
use layerscope.Auth.{Reply, ok, http}
use layerscope.Uploads.{
  File, unlink, append_to, move_file, ArchivePart, StreamedArchive, Writer, Event, Outside, Outcome,
  storage_error, fail_if,
}
use layerscope.Uploads.Parts.{on_event}

-- A chunk of the body: its length, the callbacks, how much the parser consumed, and whether it
-- raised `MultipartParseError` after them.
pub record Chunk : Type 0 where
  pub size : ℕ
  pub events : List Event
  pub consumed : ℕ
  pub malformed : Bool

pub record Upload : Type 0 where
  pub content_type : Text
  pub boundary : Option Text
  -- `int(…)` of the header: none where it raises, and whether it is negative.
  pub content_length : Option (Bool × ℕ)
  pub chunks : List Chunk
  -- The callbacks of `finalize`, and whether it raised.
  pub final_events : List Event
  pub final_malformed : Bool

-- What follows a step that did not fail.
unfoldable pub and_then : Outcome → (Writer → Outcome) → Outcome
and_then (w, ok u) k = k w
and_then (w, http code message) k = (w, http code message)

abbrev pub too_large : Text
too_large = text "The combined upload exceeds the configured request limit"

abbrev pub malformed_upload : Bool → Writer → Outcome
malformed_upload b w = fail_if b 400 (text "Malformed multipart upload") w (w, ok tt)

module _ (c : Settings) (o : Outside) where
  unfoldable pub on_events : List Event → Writer → Outcome
  on_events [] w = (w, ok tt)
  on_events (e ∷ es) w = and_then (on_event c o e w) (on_events es)

  abbrev pub written : Text → Text → Option ℕ → Writer → Outcome
  written n payload none w = (record w { files = append_to n payload w.files }, ok tt)
  written n payload (some errno) w = (w, storage_error errno)

  -- `_write_all`
  unfoldable pub write_all : List (ArchivePart × Text) → Writer → Outcome
  write_all [] w = (w, ok tt)
  write_all ((a, payload) ∷ rest) w =
      and_then (written a.temporary payload (o.write_error a.temporary) w) (write_all rest)

  abbrev pub finished_one : ArchivePart → Option ℕ → Writer → Outcome
  finished_one a (some errno) w = (w, storage_error errno)
  finished_one a none w = (
    record w {
      files = move_file a.temporary a.path w.files;
      completed = w.completed ++ (record { name = a.path; size = a.size } ∷ []);
    },
    ok tt,
  )

  unfoldable pub finish_all : List ArchivePart → Writer → Outcome
  finish_all [] w = (w, ok tt)
  finish_all (a ∷ rest) w =
      and_then (finished_one a (o.finish_error a.temporary) w) (finish_all rest)

  abbrev pub checked : Reply (Unit {0}) → Writer → Outcome
  checked (ok u) w = (record w { checked_at = w.file_bytes }, ok tt)
  checked (http code message) w = (w, http code message)

  abbrev pub storage_due : Bool → Writer → Outcome
  storage_due true w = checked (o.storage w.files) w
  storage_due false w = (w, ok tt)

  abbrev pub check_storage : Writer → Outcome
  check_storage w = storage_due (leb (64 * 1024 * 1024) (w.file_bytes - w.checked_at)) w

  -- `flush_events`
  unfoldable pub flush_events : Writer → Outcome
  flush_events w =
      let w' = record w { pending_writes = []; pending_finished = [] } in
      and_then (write_all w.pending_writes w')
        λ w1. and_then (check_storage w1) λ w2. finish_all w.pending_finished w2

  abbrev pub max_body_bytes : ℕ
  max_body_bytes = c.max_upload_request_bytes + c.max_upload_files * 1024 * 1024

  abbrev pub parse_chunk : Chunk → Writer → Outcome
  parse_chunk chunk w = and_then (on_events chunk.events w) λ w1.
      and_then (malformed_upload chunk.malformed w1)
        λ w2. fail_if (not (chunk.consumed == chunk.size)) 413 too_large w2 (flush_events w2)

  abbrev pub nonempty_chunk : Chunk → Bool → Writer → Outcome
  nonempty_chunk chunk true w = (w, ok tt)
  nonempty_chunk chunk false w = parse_chunk chunk w

  -- One round of the loop over the body.
  unfoldable pub on_chunk : Chunk → Writer → Outcome
  on_chunk chunk w =
      let w' = record w { body_bytes = w.body_bytes + chunk.size } in
      fail_if (ltb max_body_bytes w'.body_bytes) 413 too_large w'
        (nonempty_chunk chunk (chunk.size == 0) w')

  unfoldable pub on_chunks : List Chunk → Writer → Outcome
  on_chunks [] w = (w, ok tt)
  on_chunks (chunk ∷ rest) w = and_then (on_chunk chunk w) (on_chunks rest)

  abbrev pub is_nil : {A : Type 0} → List A → Bool
  is_nil [] = true
  is_nil (x ∷ xs) = false

  abbrev pub check_end : Writer → Outcome
  check_end w =
      fail_if (not w.ended) 400 (text "The multipart upload ended before its closing boundary") w (
        fail_if (is_nil w.completed) 400 (text "At least one .tar archive is required") w
          (w, ok tt))

  -- The body of the `try`.
  unfoldable pub stream_body : Upload → Writer → Outcome
  stream_body u w = and_then (on_chunks u.chunks w) λ w1.
      and_then (on_events u.final_events w1) λ w2.
        and_then (malformed_upload u.final_malformed w2) λ w3. and_then (flush_events w3) check_end

-- `cleanup`, where every file can be removed.
unfoldable pub cleanup : List ArchivePart → List File → List File
cleanup [] files = files
cleanup (a ∷ rest) files = cleanup rest (unlink a.path (unlink a.temporary files))

abbrev pub Streamed : Type 0
Streamed = List File × Reply (List StreamedArchive)

-- Every exception of the class `Exception` leaves through `cleanup`; the cancellation of the request's
-- task, which does not, is left out.
abbrev pub concluded : Outcome → Streamed
concluded (w, ok u) = (w.files, ok w.completed)
concluded (w, http code message) = (cleanup w.open_archives w.files, http code message)

abbrev pub new_writer : List File → ℕ → Writer
new_writer files draws = record {
  files = files;
  current = none;
  file_count = 0;
  file_bytes = 0;
  body_bytes = 0;
  checked_at = 0;
  ended = false;
  reserved = [];
  open_archives = [];
  completed = [];
  pending_writes = [];
  pending_finished = [];
  draws = draws;
}

module _ (c : Settings) (o : Outside) (draws : ℕ) where
  abbrev pub with_storage : Reply (Unit {0}) → Upload → List File → Streamed
  with_storage (http code message) u files = (files, http code message)
  with_storage (ok v) u files = concluded (stream_body c o u (new_writer files draws))

  abbrev pub with_length : Option (Bool × ℕ) → Upload → List File → Streamed
  with_length none u files = (files, http 400 (text "Invalid Content-Length header"))
  with_length (some (true, n)) u files = (files, http 400 (text "Invalid Content-Length header"))
  with_length (some (false, n)) u files =
      if ltb (max_body_bytes c o) n
      then (files, http 413 too_large)
      else with_storage (o.storage files) u files

  abbrev pub with_boundary : Text → Upload → List File → Streamed
  with_boundary boundary u files =
      if nonempty boundary && same u.content_type (text "multipart/form-data")
      then with_length u.content_length u files
      else (files, http 400 (text "A multipart/form-data upload is required"))

  -- `stream_archive_uploads`, without the reports of its progress.
  unfoldable pub stream_archive_uploads : Upload → List File → Streamed
  stream_archive_uploads u files =
      with_boundary (elim u.boundary [ none ↦ [] | some b ↦ b ]) u files
