-- ===== src/Uploads/Owned.antt =====
-- What an upload does to the files that were in the directory before it.
pub mod Events
use layerscope.Base.{
  ℕ, suc, ◌+◌, Bool, true, false, ◌&&◌, ◌||◌, List, [], ◌∷◌, ◌++◌, Option, none, some, ◌≡◌, refl,
  sym, ap, ◌∙◌, arith, Bool-cases, inl, inr, all, length,
}
use layerscope.Base.Text.{Text, text, same, same_refl, same→eq, one_of}
use layerscope.Config.{Settings}
use layerscope.Auth.{ok, http}
use layerscope.Uploads.{
  File, lookup, file_names, free_name, ArchivePart, MultipartPart, Writer, Outside, Outcome,
  fail_if, candidate, taken_names, Event, part_begin, header_end, headers_finished, part_end, end,
  header_field, header_value, part_data,
}
use layerscope.Uploads.Parts.{data_for, data_of}
use layerscope.Uploads.Parts.{
  new_part, open_found, open_status, reserve, store_archive, named_file, check_disposition,
  headers_of, on_current, grown, finish_archive, end_of, on_event,
}
use layerscope.Uploads.Stream.{and_then, on_events}
use layerscope.Uploads.Names.{absent_name, one_of-append, free_name-free, same_sym}

-- The names that an upload has taken for its archives.
abbrev pub part_names : List ArchivePart → List Text
part_names [] = []
part_names (a ∷ parts) = a.path ∷ a.temporary ∷ part_names parts

abbrev pub within : List Text → List Text → Bool
within owned names = all (λ n. one_of n owned) names

abbrev pub archive_of : Option MultipartPart → Option ArchivePart
archive_of none = none
archive_of (some p) = p.archive

abbrev pub archive_names : Option ArchivePart → List Text
archive_names none = []
archive_names (some a) = a.path ∷ a.temporary ∷ []

abbrev pub write_names : List (ArchivePart × Text) → List Text
write_names [] = []
write_names ((a, payload) ∷ rest) = a.temporary ∷ write_names rest

-- Files of other names are as they were, no file had an owned name, and the writer works on owned
-- names alone.
pub record IntactParts (old files : List File) (opened : List ArchivePart)
    (pending : List (ArchivePart × Text)) (closed : List ArchivePart)
    (current : Option MultipartPart) : Type 0 where
  pub outside : (n : Text) → one_of n (part_names opened) ≡ false → lookup n files ≡ lookup n old
  pub mine : (n : Text) → one_of n (part_names opened) ≡ true → lookup n old ≡ none
  pub writes : within (part_names opened) (write_names pending) ≡ true
  pub finished : within (part_names opened) (part_names closed) ≡ true
  pub working : within (part_names opened) (archive_names (archive_of current)) ≡ true

abbrev pub Intact : List File → Writer → Type 0
Intact old w = IntactParts old w.files w.open_archives w.pending_writes w.pending_finished w.current

-- A step, whether it fails or not, leaves the files intact.
pub record Sound (old : List File) (x : Outcome) : Type 0 where
  pub at : Intact old x.0

pub part_names-append :
    (xs ys : List ArchivePart) → part_names (xs ++ ys) ≡ part_names xs ++ part_names ys
part_names-append [] ys = refl
part_names-append (x ∷ xs) ys = rw (part_names-append xs ys) refl

pub all-append_lem :
    (p : Text → Bool) (xs ys : List Text) → all p (xs ++ ys) ≡ (all p xs && all p ys)
all-append_lem p [] ys = refl
all-append_lem p (x ∷ xs) ys = ground (arith, all-append_lem p xs ys)

-- A longer list of archives owns at least as much.
within_grows :
    (owned more names : List Text) → within owned names ≡ true → within (owned ++ more) names ≡ true
within_grows owned more [] h = refl
within_grows owned more (n ∷ names) h =
    ground (arith, h, one_of-append n owned more, within_grows owned more names)

pub write_names-append :
    (xs : List (ArchivePart × Text)) (a : ArchivePart) (payload : Text)
    → write_names (xs ++ ((a, payload) ∷ [])) ≡ write_names xs ++ (a.temporary ∷ [])
write_names-append [] a payload = refl
write_names-append (x ∷ xs) a payload = rw (write_names-append xs a payload) refl

pub opened_free :
    (c : Settings) (o : Outside) (n : Text) (w : Writer)
    → open_status c o n w ≡ none
    → lookup n w.files ≡ none
opened_free c o n w e = ground (arith, e, absent_name n w.files)

module _ {old : List File} where
  pub Sound-fail_if :
      (b : Bool) (code : ℕ) (message : Text) (w : Writer) (k : Outcome)
      → Intact old w
      → Sound old k
      → Sound old (fail_if b code message w k)
  unfolding fail_if
  Sound-fail_if true code message w k h s = record { at = h }
  Sound-fail_if false code message w k h s = s

  pub Sound-and_then :
      (x : Outcome) (k : Writer → Outcome)
      → Sound old x
      → ((w : Writer) → Intact old w → Sound old (k w))
      → Sound old (and_then x k)
  unfolding and_then
  Sound-and_then (w, ok u) k h s = s w h.at
  Sound-and_then (w, http code message) k h s = record { at = h.at }

  -- Another current part.
  pub Intact-current :
      (w : Writer) (p : Option MultipartPart)
      → Intact old w
      → within (part_names w.open_archives) (archive_names (archive_of p)) ≡ true
      → Intact old (record w { current = p })
  Intact-current w p h k = record {
    outside = h.outside;
    mine = h.mine;
    writes = h.writes;
    finished = h.finished;
    working = k;
  }

  pub on_current-Intact :
      (f : MultipartPart → MultipartPart) (o : Option MultipartPart) (w : Writer) (c : Settings)
      (u : Outside)
      → ((p : MultipartPart) → (f p).archive ≡ p.archive)
      → w.current ≡ o
      → Intact old w
      → Intact old (on_current c u f o w).0
  on_current-Intact f none w c u keep e h = h
  on_current-Intact f (some p) w c u keep e h = Intact-current w (some (f p)) h (
      rw (keep p) (
        sym (ap (λ x. within (part_names w.open_archives) (archive_names (archive_of x))) e)
        ∙ h.working))

  never_there :
      (w : Writer) (n : Text) → Intact old w → lookup n w.files ≡ none → lookup n old ≡ none
  never_there w n h e = elim (Bool-cases (one_of n (part_names w.open_archives))) [
    | inl mine ↦ h.mine n mine
    | inr other ↦ sym (h.outside n other) ∙ e
  ]

  -- A new archive under two names that no file has.
  module _ (w : Writer) (part : MultipartPart) (a : ArchivePart) (h : Intact old w)
      (path_free : lookup a.path w.files ≡ none)
      (temporary_free : lookup a.temporary w.files ≡ none) where
    owned_more :
        (n : Text)
        → one_of n (part_names (w.open_archives ++ (a ∷ [])))
          ≡ (one_of n (part_names w.open_archives) || (same n a.path || same n a.temporary))
    unfolding one_of
    owned_more n =
        ap (one_of n) (part_names-append w.open_archives (a ∷ []))
        ∙ (ground (arith, one_of-append n (part_names w.open_archives) (part_names (a ∷ []))))

    outside_more :
        (n : Text)
        → one_of n (part_names (w.open_archives ++ (a ∷ []))) ≡ false
        → lookup n (record { name = a.temporary; content = [] } ∷ w.files) ≡ lookup n old
    unfolding lookup
    outside_more n e = ground (arith, e, owned_more n, same_sym n a.temporary, h.outside n)

    mine_more :
        (n : Text)
        → one_of n (part_names (w.open_archives ++ (a ∷ []))) ≡ true
        → lookup n old ≡ none
    mine_more n e = elim (Bool-cases (same n a.path)) [
      | inl p ↦ rw (same→eq n a.path p) (never_there w a.path h path_free)
      | inr p ↦ elim (Bool-cases (same n a.temporary)) [
        | inl t ↦ rw (same→eq n a.temporary t) (never_there w a.temporary h temporary_free)
        | inr t ↦ h.mine n (ground (arith, e, p, t, owned_more n))
      ]
    ]

    within_more :
        (names : List Text)
        → within (part_names w.open_archives) names ≡ true
        → within (part_names (w.open_archives ++ (a ∷ []))) names ≡ true
    within_more names e =
        rw (part_names-append w.open_archives (a ∷ []))
          (within_grows (part_names w.open_archives) (part_names (a ∷ [])) names e)

    pub Intact-open : Intact old (record w {
      files = record { name = a.temporary; content = [] } ∷ w.files;
      open_archives = w.open_archives ++ (a ∷ []);
      current = some (record part { archive = some a });
    })
    Intact-open = record {
      outside = outside_more;
      mine = mine_more;
      writes = within_more _ h.writes;
      finished = within_more _ h.finished;
      working = ground (
        arith,
        owned_more a.path,
        owned_more a.temporary,
        same_refl a.path,
        same_refl a.temporary,
      );
    }
