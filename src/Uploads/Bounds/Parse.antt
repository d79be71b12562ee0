-- ===== src/Uploads/Bounds/Parse.antt =====
-- The callbacks of the parser keep the bounds.
use layerscope.Base.{
  ℕ, ◌+◌, ◌≤◌, Bool, true, false, List, [], ◌∷◌, Option, none, some, ◌≡◌, refl, arith, length,
  length-append,
}
use layerscope.Base.Text.{Text}
use layerscope.Config.{Settings}
use layerscope.Uploads.{
  ArchivePart, MultipartPart, Writer, Outside, Event, part_begin, header_end, headers_finished,
  part_end, end, header_field, header_value, part_data, candidate,
}
use layerscope.Uploads.Parts.{data_for, data_of}
use layerscope.Uploads.Parts.{
  new_part, open_found, reserve, named_file, check_disposition, headers_of, on_current,
  finish_archive, end_of, on_event,
}
use layerscope.Uploads.Stream.{on_events}
use layerscope.Uploads.Owned.{archive_of}
use layerscope.Uploads.Bounds.{
  Bounded, Good, Good-and_then, Good-fail_if, part_sizes-append, parts_small-append, Within,
}

module _ (c : Settings) where
  module _ (o : Outside) where
    open_found-Good :
        (part : MultipartPart) (path temporary : Text) (w : Writer) (e : Option ℕ)
        → Bounded c w.completed w.pending_finished none w.file_count w.file_bytes
        → length w.completed + (length w.pending_finished + 1) ≤ w.file_count
        → Good (Within c) (open_found c o part (new_part c o path temporary) w e)
    open_found-Good part path temporary w (some errno) h k = record { at = tt }
    open_found-Good part path temporary w none h k = record {
      at = record {
        number = k;
        most = h.most;
        sum = h.sum;
        request = h.request;
        done_small = h.done_small;
        closed_small = h.closed_small;
        current_small = ground arith;
      };
    }

    reserve-Good :
        (part : MultipartPart) (safe_name : Text) (k : Option ℕ) (w : Writer)
        → Bounded c w.completed w.pending_finished none w.file_count w.file_bytes
        → length w.completed + (length w.pending_finished + 1) ≤ w.file_count
        → Good (Within c) (reserve c o part safe_name k w)
    reserve-Good part safe_name none w h k = record { at = tt }
    reserve-Good part safe_name (some n) w h k =
        let path = candidate o safe_name w.draws n in
        open_found-Good part path _
          (record w { reserved = path ∷ w.reserved; draws = w.draws + (n + 1) }) _ h k

    -- A further file, within the limit on their number.
    named_file-Good :
        (part : MultipartPart) (filename : Text) (w : Writer)
        → Within c w
        → Good (Within c) (named_file c o part filename w)
    named_file-Good part filename w h = Good-fail_if _ _ _ _ _ λ few.
        Good-fail_if _ _ _ _ _ λ named. Good-fail_if _ _ _ _ _ λ short.
          reserve-Good part _ _ (record w { file_count = w.file_count + 1 })
            (record {
              number = omega (arith, h.number);
              most = ground (arith, few);
              sum = omega (arith, h.sum);
              request = h.request;
              done_small = h.done_small;
              closed_small = h.closed_small;
              current_small = refl;
            })
            (omega (arith, h.number))

    check_disposition-Good :
        (part : MultipartPart) (b : Bool) (filename : Option Text) (w : Writer)
        → Within c w
        → Good (Within c) (check_disposition c o part b filename w)
    check_disposition-Good part false filename w h = record { at = tt }
    check_disposition-Good part true none w h = record { at = tt }
    check_disposition-Good part true (some filename) w h = named_file-Good part filename w h

    headers_of-Good :
        (p : Option MultipartPart) (w : Writer) → Within c w → Good (Within c) (headers_of c o p w)
    headers_of-Good none w h = record { at = tt }
    headers_of-Good (some part) w h = check_disposition-Good part _ _ w h

    -- The state of the current archive as the source has it in `current.archive`.
    abbrev pub WithinAt : Option ArchivePart → Writer → Type 0
    WithinAt a w = Bounded c w.completed w.pending_finished a w.file_count w.file_bytes

    data_for-Good :
        (part : MultipartPart) (a : Option ArchivePart) (payload : Text) (w : Writer)
        → WithinAt a w
        → Good (Within c) (data_for c o part a payload w)
    data_for-Good part none payload w h = record { at = tt }
    data_for-Good part (some a) payload w h = Good-fail_if _ _ _ _ _ λ small.
        Good-fail_if _ _ _ _ _ λ fits. record {
          at = record {
            number = h.number;
            most = h.most;
            sum = omega (arith, h.sum);
            request = ground (arith, fits);
            done_small = h.done_small;
            closed_small = h.closed_small;
            current_small = ground (arith, small);
          };
        }

    data_of-Good :
        (p : Option MultipartPart) (payload : Text) (w : Writer)
        → WithinAt (archive_of p) w
        → Good (Within c) (data_of c o p payload w)
    data_of-Good none payload w h = record { at = tt }
    data_of-Good (some part) payload w h = data_for-Good part part.archive payload w h

    finish_archive-Good :
        (a : Option ArchivePart) (w : Writer)
        → WithinAt a w
        → Good (Within c) (finish_archive c o a w)
    finish_archive-Good none w h = record { at = tt }
    finish_archive-Good (some a) w h = record {
      at = record {
        number = omega (arith, h.number, length-append w.pending_finished (a ∷ []));
        most = h.most;
        sum = omega (arith, h.sum, part_sizes-append w.pending_finished a);
        request = h.request;
        done_small = h.done_small;
        closed_small =
            ground
              (arith, h.closed_small, h.current_small, parts_small-append c w.pending_finished a);
        current_small = refl;
      };
    }

    end_of-Good :
        (p : Option MultipartPart) (w : Writer)
        → WithinAt (archive_of p) w
        → Good (Within c) (end_of c o p w)
    end_of-Good none w h = record { at = tt }
    end_of-Good (some part) w h = finish_archive-Good part.archive w h

    on_current-Good :
        (f : MultipartPart → MultipartPart) (p : Option MultipartPart) (w : Writer)
        → ((q : MultipartPart) → (f q).archive ≡ q.archive)
        → WithinAt (archive_of p) w
        → Good (Within c) (on_current c o f p w)
    on_current-Good f none w keep h = record { at = tt }
    on_current-Good f (some part) w keep h = record { at = rw (keep part) h }

    no_current : (w : Writer) → Within c w → WithinAt none w
    no_current w h = record {
      number = omega (arith, h.number);
      most = h.most;
      sum = omega (arith, h.sum);
      request = h.request;
      done_small = h.done_small;
      closed_small = h.closed_small;
      current_small = refl;
    }

    on_event-Good : (e : Event) (w : Writer) → Within c w → Good (Within c) (on_event c o e w)
    unfolding on_event
    on_event-Good part_begin w h = record { at = no_current w h }
    on_event-Good (header_field bytes) w h = on_current-Good _ w.current w (λ p. refl) h
    on_event-Good (header_value bytes) w h = on_current-Good _ w.current w (λ p. refl) h
    on_event-Good header_end w h = on_current-Good _ w.current w (λ p. refl) h
    on_event-Good headers_finished w h = headers_of-Good w.current w h
    on_event-Good (part_data payload) w h = data_of-Good w.current payload w h
    on_event-Good part_end w h = end_of-Good w.current w h
    on_event-Good end w h = record { at = h }

    pub on_events-Good :
        (es : List Event) (w : Writer) → Within c w → Good (Within c) (on_events c o es w)
    unfolding on_events
    on_events-Good [] w h = record { at = h }
    on_events-Good (e ∷ es) w h = Good-and_then _ _ (on_event-Good e w h) (on_events-Good es)
