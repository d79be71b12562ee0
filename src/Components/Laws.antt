-- ===== src/Components/Laws.antt =====
-- A property that the single steps of a maintenance job keep is kept by `check` and by the body of
-- `download`, however the process, the registry and the other tasks act.
use layerscope.Base.{ℕ, true, ◌||◌, List, ◌≡◌, Bool-cases, inl, inr}
use layerscope.Base.Int.{ℤ}
use layerscope.Base.Text.{Text, text, contains}
use layerscope.Config.{Settings}
use layerscope.Models.{Component}
use layerscope.Scanner.Outside.{Exit, exits, expires}
use layerscope.Scanner.Results.{is_zero}
use layerscope.Components.{
  ComponentManager, get_job, terminate_component, report, complete_component, job_gone,
}
use layerscope.Components.Outside.{
  Await, registry_wait, spawn_wait, exit_wait, Outside, DatabaseInfo,
}
use layerscope.Components.Download.{
  doing, inspect, check_component, add_process, exit_code, consume_progress, wait_process,
  check_download, check_installed, download_body,
}
use layerscope.Components.Post.{
  Ends, Ends-bind, Ends-doing, Ends-answer_job, Ends-suspend_job, Ends-consume,
}

-- What the steps of the job keep: `P` while it works, `Q` once it is completed, and `L` where it
-- ends because its row is gone or cancelled.
pub record Laws (P Q L : ComponentManager → Type 0) (o : Outside) (i : ℕ) : Type 0 where
  pub others : (a : Await) (m : ComponentManager) → P m → P (o.meanwhile a m)
  pub reports :
      (n : ℕ) (stage message : Text) (m : ComponentManager) → P m → P (report i n stage message m).0
  pub completes :
      (result message : Text) (m : ComponentManager)
      → P m
      → Q (complete_component i result message m)
  pub adds : (m : ComponentManager) → P m → P (add_process i m)
  pub exits_with : (code : ℤ) (m : ComponentManager) → P m → P (exit_code i code m)
  pub terminates : (m : ComponentManager) → P m → P (terminate_component i m)
  pub leaves : (m : ComponentManager) → P m → job_gone (get_job m i) ≡ true → L m

module _ {P Q L : ComponentManager → Type 0} {o : Outside} {i : ℕ} (laws : Laws P Q L o i) where
  reporting-Ends :
      (n : ℕ) (stage message : Text) → Ends P P L (doing (λ m. (report i n stage message m).0))
  reporting-Ends n stage message = Ends-doing _ (laws.reports n stage message)

  inspect-Ends : (component : Component) → Ends P P L (inspect o component)
  inspect-Ends component = record { at = λ m h. (Ends-answer_job _).at m h }

  consume_progress-kept :
      (casefold : Text → Text) (line : Text) (m : ComponentManager)
      → P m
      → P (consume_progress casefold i line m)
  unfolding consume_progress
  consume_progress-kept casefold line m h =
      elim (Bool-cases (contains (text "downloading") (casefold line))) [
        | inl e ↦ rw e (laws.reports _ _ _ m h)
        | inr e ↦
            elim (Bool-cases (
              contains (text "artifact") (casefold line)
              || contains (text "blob") (casefold line))) [
                | inl f ↦ rw (e, f) (laws.reports _ _ _ m h)
                | inr f ↦ rw (e, f) h
              ]
      ]

  wait_process-Ends : (c : Settings) (e : Exit) → Ends P P L (wait_process c i e)
  unfolding wait_process
  wait_process-Ends c (exits code) = record { at = λ m h. laws.exits_with code m h }
  wait_process-Ends c (expires code) = record {
    at = λ m h. laws.exits_with code _ (laws.terminates m h);
  }

  check_download-Ends : (code : ℤ) (lines : List Text) → Ends P P L (check_download i code lines)
  unfolding check_download
  check_download-Ends code lines = record {
    at = λ m h. elim (Bool-cases (job_gone (get_job m i))) [
      | inl e ↦ rw e (laws.leaves m h e)
      | inr e ↦ elim (Bool-cases (is_zero code)) [ inl f ↦ rw (e, f) h | inr f ↦ rw (e, f) h ]
    ];
  }

  check_installed-Ends : (info : DatabaseInfo) → Ends P P L (check_installed info)
  check_installed-Ends info = record {
    at = λ m h. elim (Bool-cases info.installed) [ inl e ↦ rw e h | inr e ↦ rw e h ];
  }

  pub check_component-Ends :
      (c : Settings) (component : Component) → Ends P Q L (check_component c o i component)
  unfolding check_component
  check_component-Ends c component = Ends-bind (reporting-Ends _ _ _) λ _.
      Ends-bind (inspect-Ends component) λ info. Ends-bind (reporting-Ends _ _ _) λ _.
        Ends-bind (Ends-suspend_job L o laws.others registry_wait)
          λ _. Ends-bind (Ends-answer_job _) λ reachable. Ends-doing _ (laws.completes _ _)

  pub download_body-Ends :
      (c : Settings) (casefold : Text → Text) (component : Component)
      → Ends P Q L (download_body c casefold o i component)
  unfolding download_body
  download_body-Ends c casefold component = Ends-bind (reporting-Ends _ _ _) λ _.
      Ends-bind (Ends-answer_job _) λ _.
        Ends-bind (Ends-suspend_job L o laws.others spawn_wait) λ _.
          Ends-bind (Ends-answer_job _) λ _. Ends-bind (Ends-doing _ laws.adds) λ _.
            Ends-bind
              (Ends-consume L o laws.others casefold i (consume_progress-kept casefold) _ _ _)
              λ lines. Ends-bind (Ends-suspend_job L o laws.others exit_wait) λ _.
                Ends-bind (wait_process-Ends c o.exit) λ code.
                  Ends-bind (check_download-Ends code lines) λ _.
                    Ends-bind (reporting-Ends _ _ _) λ _. Ends-bind (inspect-Ends component) λ info.
                      Ends-bind (check_installed-Ends info) λ _. Ends-doing _ (laws.completes _ _)
