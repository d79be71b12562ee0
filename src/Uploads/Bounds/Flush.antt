-- ===== src/Uploads/Bounds/Flush.antt =====
-- The writes and renames of a chunk keep the bounds.
use layerscope.Base.{
  ℕ, ◌+◌, Bool, true, false, List, [], ◌∷◌, Option, none, some, refl, arith, length-append,
}
use layerscope.Base.Text.{Text}
use layerscope.Config.{Settings}
use layerscope.Auth.{Reply, ok, http}
use layerscope.Uploads.{ArchivePart, StreamedArchive, Writer, Outside, Outcome}
use layerscope.Uploads.Stream.{
  Chunk, malformed_upload, written, write_all, finished_one, finish_all, checked, storage_due,
  flush_events, nonempty_chunk, parse_chunk, on_chunk, on_chunks,
}
use layerscope.Uploads.Bounds.{
  Good, Good-and_then, Good-fail_if, total_size-append, each_small-append, Within, Inside,
}
use layerscope.Uploads.Bounds.Parse.{on_events-Good}

module _ (c : Settings) where
  module _ (o : Outside) where
    write_all-Good :
        (ws : List (ArchivePart × Text)) (fs : List ArchivePart) (w : Writer)
        → Inside c fs w
        → Good (Inside c fs) (write_all c o ws w)
    unfolding write_all
    write_all-Good [] fs w h = record { at = h }
    write_all-Good ((a, payload) ∷ ws) fs w h =
        Good-and_then _ _ (wrote (o.write_error a.temporary)) (write_all-Good ws fs)
      where
        wrote : (e : Option ℕ) → Good (Inside c fs) (written c o a.temporary payload e w)
        wrote none = record { at = h }
        wrote (some errno) = record { at = tt }

    finished_one-Good :
        (a : ArchivePart) (e : Option ℕ) (fs : List ArchivePart) (w : Writer)
        → Inside c (a ∷ fs) w
        → Good (Inside c fs) (finished_one c o a e w)
    finished_one-Good a (some errno) fs w h = record { at = tt }
    finished_one-Good a none fs w (h, empty) =
        let archive : StreamedArchive = record { name = a.path; size = a.size } in
        record {
          at = (
            record {
              number = omega (arith, h.number, length-append w.completed (archive ∷ []));
              most = h.most;
              sum = omega (arith, h.sum, total_size-append w.completed archive);
              request = h.request;
              done_small =
                  ground
                    (arith, h.done_small, h.closed_small, each_small-append c w.completed archive);
              closed_small = ground (arith, h.closed_small);
              current_small = h.current_small;
            },
            empty,
          );
        }

    finish_all-Good :
        (fs : List ArchivePart) (w : Writer)
        → Inside c fs w
        → Good (Inside c []) (finish_all c o fs w)
    unfolding finish_all
    finish_all-Good [] w h = record { at = h }
    finish_all-Good (a ∷ fs) w h =
        Good-and_then _ _ (finished_one-Good a (o.finish_error a.temporary) fs w h)
          (finish_all-Good fs)

    storage_due-Good :
        (b : Bool) (fs : List ArchivePart) (w : Writer)
        → Inside c fs w
        → Good (Inside c fs) (storage_due c o b w)
    storage_due-Good false fs w h = record { at = h }
    storage_due-Good true fs w h = asked (o.storage w.files)
      where
        asked : (r : Reply (Unit {0})) → Good (Inside c fs) (checked c o r w)
        asked (ok u) = record { at = h }
        asked (http code message) = record { at = tt }

    settled : (w : Writer) → Inside c [] w → Within c w
    settled w (h, empty) = rw empty h

    flushed-Good : (w : Writer) → Within c w → Good (Inside c []) (flush_events c o w)
    unfolding flush_events
    flushed-Good w h =
        Good-and_then _ _ (write_all-Good w.pending_writes w.pending_finished _ (h, refl)) λ w1 h1.
          Good-and_then _ _ (storage_due-Good _ w.pending_finished w1 h1)
            λ w2 h2. finish_all-Good w.pending_finished w2 h2

    pub flush_events-Good : (w : Writer) → Within c w → Good (Within c) (flush_events c o w)
    flush_events-Good w h = settle (flush_events c o w) (flushed-Good w h)
      where
        settle : (x : Outcome) → Good (Inside c []) x → Good (Within c) x
        settle (w, ok u) g = record { at = settled w g.at }
        settle (w, http code message) g = record { at = tt }

    pub malformed-Good :
        (b : Bool) (w : Writer) → Within c w → Good (Within c) (malformed_upload b w)
    malformed-Good b w h = Good-fail_if _ _ _ _ _ λ e. record { at = h }

    parse_chunk-Good :
        (chunk : Chunk) (w : Writer) → Within c w → Good (Within c) (parse_chunk c o chunk w)
    parse_chunk-Good chunk w h = Good-and_then _ _ (on_events-Good c o chunk.events w h) λ w1 h1.
        Good-and_then _ _ (malformed-Good chunk.malformed w1 h1)
          λ w2 h2. Good-fail_if _ _ _ _ _ λ e. flush_events-Good w2 h2

    nonempty_chunk-Good :
        (chunk : Chunk) (b : Bool) (w : Writer)
        → Within c w
        → Good (Within c) (nonempty_chunk c o chunk b w)
    nonempty_chunk-Good chunk true w h = record { at = h }
    nonempty_chunk-Good chunk false w h = parse_chunk-Good chunk w h

    pub on_chunks-Good :
        (chunks : List Chunk) (w : Writer) → Within c w → Good (Within c) (on_chunks c o chunks w)
    unfolding on_chunks on_chunk
    on_chunks-Good [] w h = record { at = h }
    on_chunks-Good (chunk ∷ chunks) w h =
        Good-and_then _ _
          (Good-fail_if _ _ _ _ _ λ e.
            nonempty_chunk-Good chunk _ (record w { body_bytes = w.body_bytes + chunk.size }) h)
          (on_chunks-Good chunks)
