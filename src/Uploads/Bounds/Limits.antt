-- ===== src/Uploads/Bounds/Limits.antt =====
-- The number and the sizes of the archives of an accepted upload.
use layerscope.Base.{
  ℕ, ◌≤◌, Bool, true, false, ◌&&◌, List, [], ◌∷◌, Option, none, some, ◌≡◌, refl, arith, Bool-cases,
  inl, inr, length, ltb,
}
use layerscope.Base.Text.{Text, text, same, nonempty}
use layerscope.Config.{Settings}
use layerscope.Auth.{Reply, ok, http}
use layerscope.Uploads.{File, StreamedArchive, Writer, Outside, Outcome}
use layerscope.Uploads.Stream.{
  Upload, is_nil, stream_body, max_body_bytes, Streamed, concluded, new_writer, with_storage,
  with_length, with_boundary, stream_archive_uploads,
}
use layerscope.Uploads.Bounds.{each_small, total_size, Good, Good-and_then, Good-fail_if, Within}
use layerscope.Uploads.Bounds.Parse.{on_events-Good}
use layerscope.Uploads.Bounds.Flush.{malformed-Good, on_chunks-Good, flush_events-Good}

-- What the answer promises of the archives that it lists.
abbrev pub Limited : Settings → Streamed → Type 0
Limited c (files, http code message) = Unit {0}
Limited c (files, ok archives) =
    (1 ≤ length archives)
    × (length archives ≤ c.max_upload_files)
    × (each_small c archives ≡ true)
    × (total_size archives ≤ c.max_upload_request_bytes)

module _ (c : Settings) (o : Outside) (draws : ℕ) where
  some_archives :
      (archives : List StreamedArchive) → is_nil c o archives ≡ false → 1 ≤ length archives
  some_archives [] h = ground (arith, h)
  some_archives (a ∷ archives) h = omega arith

  abbrev pub Final : Writer → Type 0
  Final w = Within c w × (1 ≤ length w.completed)

  stream_body-Good : (u : Upload) (w : Writer) → Within c w → Good Final (stream_body c o u w)
  unfolding stream_body
  stream_body-Good u w h = Good-and_then _ _ (on_chunks-Good c o u.chunks w h) λ w1 h1.
      Good-and_then _ _ (on_events-Good c o u.final_events w1 h1) λ w2 h2.
        Good-and_then _ _ (malformed-Good c o u.final_malformed w2 h2) λ w3 h3.
          Good-and_then _ _ (flush_events-Good c o w3 h3) λ w4 h4.
            Good-fail_if _ _ _ _ _ λ ended.
              Good-fail_if _ _ _ _ _ λ e. record { at = (h4, some_archives w4.completed e) }

  concluded-Limited : (x : Outcome) → Good Final x → Limited c (concluded x)
  concluded-Limited (w, http code message) g = tt
  concluded-Limited (w, ok u) g =
      let (h, some_one) = g.at in
      (some_one, omega (arith, h.number, h.most), h.done_small, omega (arith, h.sum, h.request))

  with_storage-Limited :
      (r : Reply (Unit {0})) (u : Upload) (files : List File)
      → Limited c (with_storage c o draws r u files)
  with_storage-Limited (http code message) u files = tt
  with_storage-Limited (ok v) u files = concluded-Limited _ (
      stream_body-Good u (new_writer files draws) (record {
        number = omega arith;
        most = omega arith;
        sum = omega arith;
        request = omega arith;
        done_small = refl;
        closed_small = refl;
        current_small = refl;
      }))

  with_length-Limited :
      (n : Option (Bool × ℕ)) (u : Upload) (files : List File)
      → Limited c (with_length c o draws n u files)
  with_length-Limited none u files = tt
  with_length-Limited (some (true, n)) u files = tt
  with_length-Limited (some (false, n)) u files = elim (Bool-cases (ltb (max_body_bytes c o) n)) [
    | inl e ↦ rw e tt
    | inr e ↦ rw e (with_storage-Limited (o.storage files) u files)
  ]

  with_boundary-Limited :
      (boundary : Text) (u : Upload) (files : List File)
      → Limited c (with_boundary c o draws boundary u files)
  with_boundary-Limited boundary u files =
      elim (Bool-cases (nonempty boundary && same u.content_type (text "multipart/form-data"))) [
        | inl e ↦ rw e (with_length-Limited u.content_length u files)
        | inr e ↦ rw e tt
      ]

  -- An upload that is accepted has one archive at least and no more than the settings allow, each
  -- within the limit for an archive and all together within the limit for a request, however the body
  -- is cut into chunks and parts.
  pub stream_archive_uploads-Limited :
      (u : Upload) (files : List File) → Limited c (stream_archive_uploads c o draws u files)
  unfolding stream_archive_uploads
  stream_archive_uploads-Limited u files = with_boundary-Limited _ u files
