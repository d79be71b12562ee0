-- ===== src/Uploads/Kept.antt =====
-- The files that were in the upload directory, after an upload that succeeded or failed.
use layerscope.Base.{
  ℕ, ◌+◌, Bool, true, false, ◌&&◌, List, [], ◌∷◌, Option, none, some, ◌≡◌, refl, ◌∙◌, arith,
  Bool-cases, inl, inr, if◌then◌else◌, ltb,
}
use layerscope.Base.Text.{Text, text, same, one_of, nonempty}
use layerscope.Config.{Settings}
use layerscope.Auth.{Reply, ok, http}
use layerscope.Uploads.{File, lookup, unlink, ArchivePart, Writer, Outside, Outcome}
use layerscope.Uploads.Stream.{
  Chunk, Upload, malformed_upload, nonempty_chunk, parse_chunk, on_chunk, on_chunks, check_end,
  stream_body, max_body_bytes, cleanup, Streamed, concluded, new_writer, with_storage, with_length,
  with_boundary, stream_archive_uploads,
}
use layerscope.Uploads.Names.{same_sym, lookup-unlink}
use layerscope.Uploads.Owned.{part_names, Intact, Sound, Sound-fail_if, Sound-and_then}
use layerscope.Uploads.Owned.Events.{on_events-Sound}
use layerscope.Uploads.Flushed.{flush_events-Sound}

module _ {old : List File} where
  module _ (c : Settings) (o : Outside) where
    malformed-Sound : (b : Bool) (w : Writer) → Intact old w → Sound old (malformed_upload b w)
    malformed-Sound b w h = Sound-fail_if _ _ _ _ _ h (record { at = h })

    parse_chunk-Sound :
        (chunk : Chunk) (w : Writer) → Intact old w → Sound old (parse_chunk c o chunk w)
    parse_chunk-Sound chunk w h = Sound-and_then _ _ (on_events-Sound c o chunk.events w h) λ w1 h1.
        Sound-and_then _ _ (malformed-Sound chunk.malformed w1 h1)
          λ w2 h2. Sound-fail_if _ _ _ _ _ h2 (flush_events-Sound c o w2 h2)

    nonempty_chunk-Sound :
        (chunk : Chunk) (b : Bool) (w : Writer)
        → Intact old w
        → Sound old (nonempty_chunk c o chunk b w)
    nonempty_chunk-Sound chunk true w h = record { at = h }
    nonempty_chunk-Sound chunk false w h = parse_chunk-Sound chunk w h

    on_chunk-Sound : (chunk : Chunk) (w : Writer) → Intact old w → Sound old (on_chunk c o chunk w)
    unfolding on_chunk
    on_chunk-Sound chunk w h =
        Sound-fail_if _ _ _ _ _ h
          (nonempty_chunk-Sound chunk _ (record w { body_bytes = w.body_bytes + chunk.size }) h)

    on_chunks-Sound :
        (chunks : List Chunk) (w : Writer) → Intact old w → Sound old (on_chunks c o chunks w)
    unfolding on_chunks
    on_chunks-Sound [] w h = record { at = h }
    on_chunks-Sound (chunk ∷ chunks) w h =
        Sound-and_then _ _ (on_chunk-Sound chunk w h) (on_chunks-Sound chunks)

    check_end-Sound : (w : Writer) → Intact old w → Sound old (check_end c o w)
    check_end-Sound w h = Sound-fail_if _ _ _ _ _ h (Sound-fail_if _ _ _ _ _ h (record { at = h }))

    stream_body-Sound : (u : Upload) (w : Writer) → Intact old w → Sound old (stream_body c o u w)
    unfolding stream_body
    stream_body-Sound u w h = Sound-and_then _ _ (on_chunks-Sound u.chunks w h) λ w1 h1.
        Sound-and_then _ _ (on_events-Sound c o u.final_events w1 h1) λ w2 h2.
          Sound-and_then _ _ (malformed-Sound u.final_malformed w2 h2)
            λ w3 h3. Sound-and_then _ _ (flush_events-Sound c o w3 h3) check_end-Sound

lookup-cleanup :
    (n : Text) (parts : List ArchivePart) (files : List File)
    → lookup n (cleanup parts files)
      ≡ (if one_of n (part_names parts) then none else lookup n files)
unfolding cleanup one_of
lookup-cleanup n [] files = refl
lookup-cleanup n (a ∷ parts) files = ground (
  arith,
  lookup-cleanup n parts (unlink a.path (unlink a.temporary files)),
  lookup-unlink n a.path (unlink a.temporary files),
  lookup-unlink n a.temporary files,
  same_sym n a.path,
  same_sym n a.temporary,
)

-- What an answer leaves of the files that were there: all of them, and no other name if it refuses.
abbrev pub Keeps : List File → Streamed → Type 0
Keeps old (files, ok archives) =
    (n : Text) (content : Text) → lookup n old ≡ some content → lookup n files ≡ some content
Keeps old (files, http code message) = (n : Text) → lookup n files ≡ lookup n old

concluded-Keeps : (old : List File) (x : Outcome) → Sound old x → Keeps old (concluded x)
concluded-Keeps old (w, ok u) h = λ n content e.
    elim (Bool-cases (one_of n (part_names w.open_archives))) [
      | inl f ↦ ground (arith, e, h.at.mine n f)
      | inr f ↦ h.at.outside n f ∙ e
    ]
concluded-Keeps old (w, http code message) h =
    λ n. ground (arith, lookup-cleanup n w.open_archives w.files, h.at.mine n, h.at.outside n)

module _ (c : Settings) (o : Outside) (draws : ℕ) where
  fresh : (files : List File) → Intact files (new_writer files draws)
  unfolding one_of
  fresh files = record {
    outside = λ n h. refl;
    mine = λ n h. ground (arith, h);
    writes = refl;
    finished = refl;
    working = refl;
  }

  with_storage-Keeps :
      (r : Reply (Unit {0})) (u : Upload) (files : List File)
      → Keeps files (with_storage c o draws r u files)
  with_storage-Keeps (http code message) u files = λ n. refl
  with_storage-Keeps (ok v) u files =
      concluded-Keeps files _ (stream_body-Sound c o u (new_writer files draws) (fresh files))

  with_length-Keeps :
      (n : Option (Bool × ℕ)) (u : Upload) (files : List File)
      → Keeps files (with_length c o draws n u files)
  with_length-Keeps none u files = λ n. refl
  with_length-Keeps (some (true, n)) u files = λ n. refl
  with_length-Keeps (some (false, n)) u files = elim (Bool-cases (ltb (max_body_bytes c o) n)) [
    | inl e ↦ rw e (λ n. refl)
    | inr e ↦ rw e (with_storage-Keeps (o.storage files) u files)
  ]

  with_boundary-Keeps :
      (boundary : Text) (u : Upload) (files : List File)
      → Keeps files (with_boundary c o draws boundary u files)
  with_boundary-Keeps boundary u files =
      elim (Bool-cases (nonempty boundary && same u.content_type (text "multipart/form-data"))) [
        | inl e ↦ rw e (with_length-Keeps u.content_length u files)
        | inr e ↦ rw e (λ n. refl)
      ]

  -- An upload that is refused, at whatever callback, system call or chunk, leaves every name of the
  -- upload directory with the content that it had, partial and completed archives removed; one that is
  -- accepted keeps the content of every file that was there. It is supposed that the clean-up can
  -- remove files and that nothing else writes to the directory meanwhile.
  pub stream_archive_uploads-Keeps :
      (u : Upload) (files : List File) → Keeps files (stream_archive_uploads c o draws u files)
  unfolding stream_archive_uploads
  stream_archive_uploads-Keeps u files = with_boundary-Keeps _ u files
