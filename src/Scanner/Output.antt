-- ===== src/Scanner/Output.antt =====
-- `infer_progress` and `consume_output`: progress from the lines that Trivy prints.
use layerscope.Base.{
  ℕ, ◌-◌, Bool, not, ◌&&◌, ◌||◌, List, [], ◌∷◌, ◌++◌, none, some, length, drop, if◌then◌else◌,
}
use layerscope.Base.Text.{Text, text, strip, contains, same, nonempty}
use layerscope.Scanner.{ScanManager}
use layerscope.Scanner.Jobs.{Patch, update_job}

-- The result of `infer_progress`: progress, stage and message.
pub record Hint : Type 0 where
  pub progress : ℕ
  pub stage : Text
  pub friendly : Text

abbrev pub hint : ℕ → Text → Text → Hint
hint progress stage friendly = record { progress = progress; stage = stage; friendly = friendly }

-- `lowered` is the message after `casefold`.
unfoldable pub infer_progress : Text → Hint
infer_progress lowered =
    if contains (text "need to update db") lowered
      || contains (text "downloading vulnerability db") lowered
    then hint 12 (text "updating_database") (text "Updating the vulnerability database")
    else if contains (text "downloading artifact") lowered
        || contains (text "downloading db") lowered
    then hint 20 (text "downloading_database") (text "Downloading vulnerability data")
    else if contains (text "vulnerability scanning is enabled") lowered
    then hint 32 (text "loading_archive") (text "Loading the image archive")
    else if contains (text "detecting") lowered || contains (text "detected os") lowered
    then hint 48 (text "detecting_os") (text "Detecting operating system and packages")
    else if contains (text "scanning") lowered || contains (text "vulnerability") lowered
    then hint 58 (text "scanning") (text "Scanning packages for vulnerabilities")
    else hint 0 [] []

-- `deque(maxlen=80)`: the newest 80 lines.
unfoldable pub push_tail : List Text → Text → List Text
push_tail tail line = let all = tail ++ (line ∷ []) in drop (length all - 80) all

abbrev pub hint_patch : Hint → Patch
hint_patch h = record {
  status = none;
  progress = some h.progress;
  stage = h.stage;
  message = some h.friendly;
  error = none;
}

-- What one `consume_output` task keeps: the last stage, and the tail of standard error.
pub record Reader : Type 0 where
  pub last_stage : Text
  pub tail : List Text

module _ (casefold : Text → Text) where
  -- One round of the loop, for a decoded line of the stream.
  unfoldable pub consume_line : ℕ → Bool → Text → Reader → ScanManager → Reader × ScanManager
  unfolding infer_progress push_tail
  consume_line i keep_tail line r m =
      let message = strip line in
      if nonempty message
      then (let tail = if keep_tail then push_tail r.tail message else r.tail in
          let h = infer_progress (casefold message) in
          if nonempty h.stage && not (same h.stage r.last_stage)
          then (record { last_stage = h.stage; tail = tail }, (update_job i (hint_patch h) m).0)
          else (record r { tail = tail }, m))
      else (r, m)
