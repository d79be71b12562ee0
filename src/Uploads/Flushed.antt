-- ===== src/Uploads/Flushed.antt =====
-- The writes, renames and checks of `flush_events` work on the names of the upload alone.
use layerscope.Base.{
  ℕ, Bool, true, false, List, [], ◌∷◌, Option, none, some, ◌≡◌, refl, ap, ◌∙◌, arith, Bool-cases,
  inl, inr,
}
use layerscope.Base.Text.{Text, same, same→eq, one_of}
use layerscope.Config.{Settings}
use layerscope.Auth.{Reply, ok, http}
use layerscope.Uploads.{File, lookup, ArchivePart, StreamedArchive, Writer, Outside, Outcome}
use layerscope.Uploads.Stream.{
  and_then, written, write_all, finished_one, finish_all, checked, storage_due, flush_events,
}
use layerscope.Uploads.Names.{lookup-append_to, lookup-move_file}
use layerscope.Uploads.Owned.{part_names, IntactParts, Intact, Sound}

-- The state of `flush_events`, which holds the pending work in local variables.
record Flushing (old : List File) (ws : List (ArchivePart × Text)) (fs : List ArchivePart)
    (w : Writer) : Type 0 where
  parts : IntactParts old w.files w.open_archives ws fs w.current
  no_writes : w.pending_writes ≡ []
  no_finished : w.pending_finished ≡ []

-- A step that leaves a writer with `P`, whether it fails or not.
record Leaves (P : Writer → Type 0) (x : Outcome) : Type 0 where
  at : P x.0

Leaves-and_then :
    {P Q : Writer → Type 0} (x : Outcome) (k : Writer → Outcome)
    → Leaves P x
    → ((w : Writer) → P w → Q w)
    → ((w : Writer) → P w → Leaves Q (k w))
    → Leaves Q (and_then x k)
unfolding and_then
Leaves-and_then (w, ok u) k h stop go_on = go_on w h.at
Leaves-and_then (w, http code message) k h stop go_on = record { at = stop w h.at }

-- A name outside differs from an owned one.
differs :
    (n k : Text) (owned : List Text)
    → one_of n owned ≡ false
    → one_of k owned ≡ true
    → same k n ≡ false
differs n k owned h g = elim (Bool-cases (same k n)) [
  | inr e ↦ e
  | inl e ↦ ground (arith, h, g, ap (λ x. one_of x owned) (same→eq k n e))
]

module _ {old : List File} where
  Flushing-Intact :
      (ws : List (ArchivePart × Text)) (fs : List ArchivePart) (w : Writer)
      → Flushing old ws fs w
      → Intact old w
  Flushing-Intact ws fs w h = record {
    outside = h.parts.outside;
    mine = h.parts.mine;
    writes = rw h.no_writes refl;
    finished = rw h.no_finished refl;
    working = h.parts.working;
  }

  Flushing-writes :
      (x : ArchivePart × Text) (ws : List (ArchivePart × Text)) (fs : List ArchivePart) (w : Writer)
      → Flushing old (x ∷ ws) fs w
      → Flushing old ws fs w
  Flushing-writes (a, payload) ws fs w h = record {
    parts = record {
      outside = h.parts.outside;
      mine = h.parts.mine;
      writes = ground (arith, h.parts.writes);
      finished = h.parts.finished;
      working = h.parts.working;
    };
    no_writes = h.no_writes;
    no_finished = h.no_finished;
  }

  Flushing-finished :
      (a : ArchivePart) (fs : List ArchivePart) (w : Writer)
      → Flushing old [] (a ∷ fs) w
      → Flushing old [] fs w
  Flushing-finished a fs w h = record {
    parts = record {
      outside = h.parts.outside;
      mine = h.parts.mine;
      writes = refl;
      finished = ground (arith, h.parts.finished);
      working = h.parts.working;
    };
    no_writes = h.no_writes;
    no_finished = h.no_finished;
  }

  -- Other files, which differ under owned names alone.
  Flushing-files :
      (files : List File) (done : List StreamedArchive) (ws : List (ArchivePart × Text))
      (fs : List ArchivePart) (w : Writer)
      → Flushing old ws fs w
      → ((n : Text)
          → one_of n (part_names w.open_archives) ≡ false
          → lookup n files ≡ lookup n w.files)
      → Flushing old ws fs (record w { files = files; completed = done })
  Flushing-files files done ws fs w h e = record {
    parts = record {
      outside = λ n k. e n k ∙ h.parts.outside n k;
      mine = h.parts.mine;
      writes = h.parts.writes;
      finished = h.parts.finished;
      working = h.parts.working;
    };
    no_writes = h.no_writes;
    no_finished = h.no_finished;
  }

  module _ (c : Settings) (o : Outside) where
    written-Leaves :
        (a : ArchivePart) (payload : Text) (e : Option ℕ) (ws : List (ArchivePart × Text))
        (fs : List ArchivePart) (w : Writer)
        → Flushing old ((a, payload) ∷ ws) fs w
        → Leaves (Flushing old ws fs) (written c o a.temporary payload e w)
    written-Leaves a payload (some errno) ws fs w h = record {
      at = Flushing-writes (a, payload) ws fs w h;
    }
    written-Leaves a payload none ws fs w h = record {
      at = Flushing-files _ w.completed ws fs w (Flushing-writes (a, payload) ws fs w h) (λ n k.
          lookup-append_to n a.temporary
            (differs n a.temporary (part_names w.open_archives) k (ground (arith, h.parts.writes)))
            payload w.files);
    }

    drop_writes :
        (ws : List (ArchivePart × Text)) (fs : List ArchivePart) (w : Writer)
        → Flushing old ws fs w
        → Flushing old [] fs w
    drop_writes [] fs w h = h
    drop_writes (x ∷ ws) fs w h = drop_writes ws fs w (Flushing-writes x ws fs w h)

    drop_finished :
        (fs : List ArchivePart) (w : Writer) → Flushing old [] fs w → Flushing old [] [] w
    drop_finished [] w h = h
    drop_finished (a ∷ fs) w h = drop_finished fs w (Flushing-finished a fs w h)

    write_all-Leaves :
        (ws : List (ArchivePart × Text)) (fs : List ArchivePart) (w : Writer)
        → Flushing old ws fs w
        → Leaves (Flushing old [] fs) (write_all c o ws w)
    unfolding write_all
    write_all-Leaves [] fs w h = record { at = h }
    write_all-Leaves ((a, payload) ∷ ws) fs w h =
        Leaves-and_then _ _ (written-Leaves a payload (o.write_error a.temporary) ws fs w h)
          (drop_writes ws fs) (write_all-Leaves ws fs)

    finished_one-Leaves :
        (a : ArchivePart) (e : Option ℕ) (fs : List ArchivePart) (w : Writer)
        → Flushing old [] (a ∷ fs) w
        → Leaves (Flushing old [] fs) (finished_one c o a e w)
    finished_one-Leaves a (some errno) fs w h = record { at = Flushing-finished a fs w h }
    finished_one-Leaves a none fs w h = record {
      at = Flushing-files _ _ [] fs w (Flushing-finished a fs w h) (λ n k.
          lookup-move_file n a.temporary a.path w.files
            (differs n a.temporary (part_names w.open_archives) k
              (ground (arith, h.parts.finished)))
            (differs n a.path (part_names w.open_archives) k (ground (arith, h.parts.finished))));
    }

    finish_all-Leaves :
        (fs : List ArchivePart) (w : Writer)
        → Flushing old [] fs w
        → Leaves (Flushing old [] []) (finish_all c o fs w)
    unfolding finish_all
    finish_all-Leaves [] w h = record { at = h }
    finish_all-Leaves (a ∷ fs) w h =
        Leaves-and_then _ _ (finished_one-Leaves a (o.finish_error a.temporary) fs w h)
          (drop_finished fs) (finish_all-Leaves fs)

    checked-Leaves :
        (r : Reply (Unit {0})) (fs : List ArchivePart) (w : Writer)
        → Flushing old [] fs w
        → Leaves (Flushing old [] fs) (checked c o r w)
    checked-Leaves (ok u) fs w h = record {
      at = record { parts = h.parts; no_writes = h.no_writes; no_finished = h.no_finished };
    }
    checked-Leaves (http code message) fs w h = record { at = h }

    storage_due-Leaves :
        (b : Bool) (fs : List ArchivePart) (w : Writer)
        → Flushing old [] fs w
        → Leaves (Flushing old [] fs) (storage_due c o b w)
    storage_due-Leaves true fs w h = checked-Leaves (o.storage w.files) fs w h
    storage_due-Leaves false fs w h = record { at = h }

    started :
        (w : Writer)
        → Intact old w
        → Flushing old w.pending_writes w.pending_finished
            (record w { pending_writes = []; pending_finished = [] })
    started w h = record { parts = h; no_writes = refl; no_finished = refl }

    flushed : (w : Writer) → Intact old w → Leaves (Flushing old [] []) (flush_events c o w)
    unfolding flush_events
    flushed w h =
        Leaves-and_then _ _ (write_all-Leaves w.pending_writes w.pending_finished _ (started w h))
          (drop_finished w.pending_finished)
          (λ w1 h1.
            Leaves-and_then _ _ (storage_due-Leaves _ w.pending_finished w1 h1)
              (drop_finished w.pending_finished) (finish_all-Leaves w.pending_finished))

    pub flush_events-Sound : (w : Writer) → Intact old w → Sound old (flush_events c o w)
    flush_events-Sound w h = record {
      at = Flushing-Intact [] [] (flush_events c o w).0 (flushed w h).at;
    }
