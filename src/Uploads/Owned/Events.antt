-- ===== src/Uploads/Owned/Events.antt =====
-- The callbacks of the parser work on the names of the upload alone.
use layerscope.Base.{
  ℕ, suc, ◌+◌, Bool, true, false, List, [], ◌∷◌, ◌++◌, Option, none, some, ◌≡◌, refl, sym, ap, ◌∙◌,
  arith, length,
}
use layerscope.Base.Text.{Text, text, one_of}
use layerscope.Config.{Settings}
use layerscope.Uploads.{
  File, lookup, file_names, free_name, ArchivePart, MultipartPart, Writer, Outside, candidate,
  taken_names, Event, part_begin, header_end, headers_finished, part_end, end, header_field,
  header_value, part_data,
}
use layerscope.Uploads.Parts.{data_for, data_of}
use layerscope.Uploads.Parts.{
  new_part, open_found, open_status, reserve, store_archive, named_file, check_disposition,
  headers_of, grown, finish_archive, end_of, on_event,
}
use layerscope.Uploads.Stream.{on_events}
use layerscope.Uploads.Names.{absent_name, one_of-append, free_name-free}
use layerscope.Uploads.Owned.{
  Intact, Intact-current, Intact-open, Sound, Sound-and_then, Sound-fail_if, all-append_lem,
  archive_names, archive_of, on_current-Intact, opened_free, part_names, part_names-append, within,
  write_names, write_names-append,
}

module _ {old : List File} where
  module _ (c : Settings) (o : Outside) where
    open_found-Intact :
        (part : MultipartPart) (a : ArchivePart) (w : Writer) (e : Option ℕ)
        → lookup a.path w.files ≡ none
        → (e ≡ none → lookup a.temporary w.files ≡ none)
        → Intact old w
        → Intact old (open_found c o part a w e).0
    open_found-Intact part a w (some errno) p t h = h
    open_found-Intact part a w none p t h = Intact-open w part a h p (t refl)

    reserve-Intact :
        (part : MultipartPart) (safe_name : Text) (k : Option ℕ) (w : Writer)
        → free_name (suc (length (taken_names w))) (candidate o safe_name w.draws) (taken_names w) 0
          ≡ k
        → Intact old w
        → Intact old (reserve c o part safe_name k w).0
    reserve-Intact part safe_name none w e h = h
    reserve-Intact part safe_name (some n) w e h =
        let free = free_name-free _ (candidate o safe_name w.draws) (taken_names w) 0 n e in
        let path = candidate o safe_name w.draws n in
        let temporary =
          text "." ++ (path ++ (text "." ++ (o.uuid (w.draws + n) ++ text ".part"))) in
        let w' = record w { reserved = path ∷ w.reserved; draws = w.draws + (n + 1) } in
        open_found-Intact part (new_part c o path temporary) w' (open_status c o temporary w')
          (absent_name path w.files
            (ground (arith, free, one_of-append path (file_names w.files) w.reserved)))
          (opened_free c o temporary w') h

    store_archive-Intact :
        (part : MultipartPart) (safe_name : Text) (w : Writer)
        → Intact old w
        → Sound old (store_archive c o part safe_name w)
    store_archive-Intact part safe_name w h =
        Sound-fail_if _ _ _ _ _ h
          (Sound-fail_if _ _ _ _ _ h (record { at = reserve-Intact part safe_name _ w refl h }))

    named_file-Intact :
        (part : MultipartPart) (filename : Text) (w : Writer)
        → Intact old w
        → Sound old (named_file c o part filename w)
    named_file-Intact part filename w h =
        Sound-fail_if _ _ _ _ _ h
          (store_archive-Intact part _ (record w { file_count = w.file_count + 1 }) h)

    check_disposition-Intact :
        (part : MultipartPart) (b : Bool) (filename : Option Text) (w : Writer)
        → Intact old w
        → Sound old (check_disposition c o part b filename w)
    check_disposition-Intact part false filename w h = record { at = h }
    check_disposition-Intact part true none w h = record { at = h }
    check_disposition-Intact part true (some filename) w h = named_file-Intact part filename w h

    headers_of-Intact :
        (p : Option MultipartPart) (w : Writer) → Intact old w → Sound old (headers_of c o p w)
    headers_of-Intact none w h = record { at = h }
    headers_of-Intact (some part) w h = check_disposition-Intact part _ _ w h

    data_for-Intact :
        (part : MultipartPart) (a : Option ArchivePart) (payload : Text) (w : Writer)
        → within (part_names w.open_archives) (archive_names a) ≡ true
        → Intact old w
        → Sound old (data_for c o part a payload w)
    data_for-Intact part none payload w k h = record { at = h }
    data_for-Intact part (some a) payload w k h =
        Sound-fail_if _ _ _ _ _ grown_part
          (Sound-fail_if _ _ _ _ _ grown_part (record { at = pending }))
      where
        grown_part :
            Intact old
              (record w { current = some (record part { archive = some (grown c o a payload) }) })
        grown_part =
            Intact-current w (some (record part { archive = some (grown c o a payload) })) h k

        pending : Intact old (record w {
          current = some (record part { archive = some (grown c o a payload) });
          pending_writes = w.pending_writes ++ ((grown c o a payload, payload) ∷ []);
        })
        pending = record {
          outside = h.outside;
          mine = h.mine;
          finished = h.finished;
          working = k;
          writes = rw (write_names-append w.pending_writes (grown c o a payload) payload) (
              ground (
                arith,
                k,
                h.writes,
                all-append_lem (λ n. one_of n (part_names w.open_archives))
                    (write_names w.pending_writes) (a.temporary ∷ []),
              ));
        }

    finish_archive-Intact :
        (a : Option ArchivePart) (w : Writer)
        → within (part_names w.open_archives) (archive_names a) ≡ true
        → Intact old w
        → Intact old (finish_archive c o a w).0
    finish_archive-Intact none w k h = h
    finish_archive-Intact (some a) w k h = record {
      outside = h.outside;
      mine = h.mine;
      writes = h.writes;
      finished = rw (part_names-append w.pending_finished (a ∷ [])) (
          ground (
            arith,
            k,
            h.finished,
            all-append_lem (λ n. one_of n (part_names w.open_archives))
                (part_names w.pending_finished) (part_names (a ∷ [])),
          ));
      working = refl;
    }

    -- What the current part works on.
    working_on :
        (w : Writer) (p : Option MultipartPart)
        → w.current ≡ p
        → Intact old w
        → within (part_names w.open_archives) (archive_names (archive_of p)) ≡ true
    working_on w p e h =
        ap (λ x. within (part_names w.open_archives) (archive_names (archive_of x))) (sym e)
        ∙ h.working

    data_of-Intact :
        (p : Option MultipartPart) (payload : Text) (w : Writer)
        → w.current ≡ p
        → Intact old w
        → Sound old (data_of c o p payload w)
    data_of-Intact none payload w e h = record { at = h }
    data_of-Intact (some part) payload w e h =
        data_for-Intact part part.archive payload w (working_on w (some part) e h) h

    end_of-Intact :
        (p : Option MultipartPart) (w : Writer)
        → w.current ≡ p
        → Intact old w
        → Intact old (end_of c o p w).0
    end_of-Intact none w e h = h
    end_of-Intact (some part) w e h =
        finish_archive-Intact part.archive w (working_on w (some part) e h) h

    on_event-Sound : (e : Event) (w : Writer) → Intact old w → Sound old (on_event c o e w)
    unfolding on_event
    on_event-Sound part_begin w h = record { at = Intact-current w _ h refl }
    on_event-Sound (header_field bytes) w h = record {
      at = on_current-Intact _ w.current w c o (λ p. refl) refl h;
    }
    on_event-Sound (header_value bytes) w h = record {
      at = on_current-Intact _ w.current w c o (λ p. refl) refl h;
    }
    on_event-Sound header_end w h = record {
      at = on_current-Intact _ w.current w c o (λ p. refl) refl h;
    }
    on_event-Sound headers_finished w h = headers_of-Intact w.current w h
    on_event-Sound (part_data payload) w h = data_of-Intact w.current payload w refl h
    on_event-Sound part_end w h = record { at = end_of-Intact w.current w refl h }
    on_event-Sound end w h = record { at = h }

    pub on_events-Sound :
        (es : List Event) (w : Writer) → Intact old w → Sound old (on_events c o es w)
    unfolding on_events
    on_events-Sound [] w h = record { at = h }
    on_events-Sound (e ∷ es) w h = Sound-and_then _ _ (on_event-Sound e w h) (on_events-Sound es)
