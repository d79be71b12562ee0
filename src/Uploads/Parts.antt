-- ===== src/Uploads/Parts.antt =====
-- backend/app/uploads.py: the callbacks of the multipart parser.
use layerscope.Base.{
  ℕ, suc, ◌+◌, Bool, true, false, not, ◌&&◌, ◌||◌, [], ◌∷◌, ◌++◌, Option, none, some, ltb, length,
  if◌then◌else◌,
}
use layerscope.Base.Text.{Text, text, same, strip, nonempty, one_of, decimal, replace, last}
use layerscope.Config.{Settings}
use layerscope.Auth.{ok, http}
use layerscope.Uploads.{
  ArchivePart, Event, MultipartPart, Outcome, Outside, Writer, candidate, end, fail_if, file_names,
  free_name, header_end, header_field, header_value, headers_finished, malformed, part_begin,
  part_data, part_end, path_name, storage_error, taken_names, utf8_length,
}

module _ (c : Settings) (o : Outside) where
  -- `temporary.open("xb")`, and the part that holds the archive.
  abbrev pub open_found : MultipartPart → ArchivePart → Writer → Option ℕ → Outcome
  open_found part archive w (some errno) = (w, storage_error errno)
  open_found part archive w none = (
    record w {
      files = record { name = archive.temporary; content = [] } ∷ w.files;
      open_archives = w.open_archives ++ (archive ∷ []);
      current = some (record part { archive = some archive });
    },
    ok tt,
  )

  -- EEXIST is 17: an exclusive creation fails on a name that exists.
  abbrev pub open_status : Text → Writer → Option ℕ
  open_status temporary w =
      if one_of temporary (file_names w.files) then some 17 else o.open_error temporary

  abbrev pub new_part : Text → Text → ArchivePart
  new_part path temporary = record { path = path; temporary = temporary; size = 0 }

  abbrev pub reserve : MultipartPart → Text → Option ℕ → Writer → Outcome
  reserve part safe_name none w = (w, http 500 (text "Internal Server Error"))
  reserve part safe_name (some n) w =
      let destination = candidate o safe_name w.draws n in
      let temporary =
        text "." ++ (destination ++ (text "." ++ (o.uuid (w.draws + n) ++ text ".part"))) in
      let archive = new_part destination temporary in
      let w' = record w { reserved = destination ∷ w.reserved; draws = w.draws + (n + 1) } in
      open_found part archive w' (open_status temporary w')

  -- Enough rounds for every name that is taken.
  abbrev pub name_rounds : Writer → ℕ
  name_rounds w = suc (length (taken_names w))

  -- The names that are refused.
  unfoldable pub bad_name : Text → Bool
  bad_name safe_name =
      not (nonempty safe_name)
      || same safe_name (text ".")
      || same safe_name (text "..")
      || not (same (last 4 (o.lower safe_name)) (text ".tar"))

  abbrev pub store_archive : MultipartPart → Text → Writer → Outcome
  store_archive part safe_name w =
      fail_if (bad_name safe_name) 400 (text "Only named .tar archives are accepted") w (
        fail_if (ltb 240 (utf8_length safe_name)) 400 (text "Archive filename is too long") w (
          reserve part safe_name
            (free_name (name_rounds w) (candidate o safe_name w.draws) (taken_names w) 0) w))

  abbrev pub not_a_file : Writer → Outcome
  not_a_file w = (w, http 400 (text "The upload must contain only file fields named 'files'"))

  abbrev pub safe_name_of : Text → Text
  safe_name_of filename =
      strip (path_name (replace (92 ∷ []) (text "/") (o.decode_header filename)))

  abbrev pub named_file : MultipartPart → Text → Writer → Outcome
  named_file part filename w =
      let w' = record w { file_count = w.file_count + 1 } in
      fail_if (ltb c.max_upload_files w'.file_count) 413
        (text "Upload between 1 and " ++ (decimal c.max_upload_files ++ text " archives at a time"))
        w' (store_archive part (safe_name_of filename) w')

  abbrev pub check_disposition : MultipartPart → Bool → Option Text → Writer → Outcome
  check_disposition part false filename w = not_a_file w
  check_disposition part true none w = not_a_file w
  check_disposition part true (some filename) w = named_file part filename w

  abbrev pub is_files : Option Text → Bool
  is_files none = false
  is_files (some n) = same n (text "files")

  abbrev pub headers_of : Option MultipartPart → Writer → Outcome
  headers_of none w = malformed w
  headers_of (some part) w =
      let d = o.parse_options_header part.content_disposition in
      check_disposition part (same d.value (text "form-data") && is_files d.name) d.filename w

  -- A change of the current part.
  abbrev pub on_current : (MultipartPart → MultipartPart) → Option MultipartPart → Writer → Outcome
  on_current f none w = malformed w
  on_current f (some part) w = (record w { current = some (f part) }, ok tt)

  abbrev pub end_header : MultipartPart → MultipartPart
  end_header p = record p {
    content_disposition =
        if same (o.lower p.header_name) (text "content-disposition")
        then p.header_value
        else p.content_disposition;
    header_name = [];
    header_value = [];
  }

  abbrev pub grown : ArchivePart → Text → ArchivePart
  grown a payload = record a { size = a.size + length payload }

  abbrev pub data_for : MultipartPart → Option ArchivePart → Text → Writer → Outcome
  data_for part none payload w = malformed w
  data_for part (some a) payload w =
      let a' = grown a payload in
      let w' = record w {
        current = some (record part { archive = some a' });
        file_bytes = w.file_bytes + length payload;
      } in
      fail_if (ltb c.max_upload_bytes a'.size) 413
        (text "Archive exceeds the " ++ (decimal c.max_upload_bytes ++ text " byte upload limit"))
        w'
        (fail_if (ltb c.max_upload_request_bytes w'.file_bytes) 413
          (text "The combined upload exceeds the configured request limit") w'
          (record w' { pending_writes = w.pending_writes ++ ((a', payload) ∷ []) }, ok tt))

  abbrev pub data_of : Option MultipartPart → Text → Writer → Outcome
  data_of none payload w = malformed w
  data_of (some part) payload w = data_for part part.archive payload w

  abbrev pub finish_archive : Option ArchivePart → Writer → Outcome
  finish_archive none w = malformed w
  finish_archive (some a) w =
      (record w { pending_finished = w.pending_finished ++ (a ∷ []); current = none }, ok tt)

  abbrev pub end_of : Option MultipartPart → Writer → Outcome
  end_of none w = malformed w
  end_of (some part) w = finish_archive part.archive w

  -- One callback.
  unfoldable pub on_event : Event → Writer → Outcome
  on_event part_begin w = (
    record w {
      current = some (record {
        header_name = [];
        header_value = [];
        content_disposition = [];
        archive = none;
      });
    },
    ok tt,
  )
  on_event (header_field bytes) w =
      on_current (λ p. record p { header_name = p.header_name ++ bytes }) w.current w
  on_event (header_value bytes) w =
      on_current (λ p. record p { header_value = p.header_value ++ bytes }) w.current w
  on_event header_end w = on_current end_header w.current w
  on_event headers_finished w = headers_of w.current w
  on_event (part_data payload) w = data_of w.current payload w
  on_event part_end w = end_of w.current w
  on_event end w = (record w { ended = true }, ok tt)
