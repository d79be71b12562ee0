-- ===== src/Scanner/Run/Ends.antt =====
-- The row of a scan from its claim to the end of the body of `run_scan`.
use layerscope.Base.{ℕ, List, refl, arith, length}
use layerscope.Base.Json.{Json}
use layerscope.Base.Text.{Text}
use layerscope.Config.{Settings}
use layerscope.Models.{Finding, Package}
use layerscope.Scanner.{put_scan}
use layerscope.Scanner.Rows.{get-put, get-publish_job}
use layerscope.Scanner.Task.Ensures.{Ensures, Ensures-bind, Ensures-on_manager}
use layerscope.Scanner.Outside.{Await, Outside, lock_wait, exit_wait}
use layerscope.Scanner.Claim.{claim, claimed_scan}
use layerscope.Scanner.Results.{complete, completed_scan}
use layerscope.Scanner.Run.{body, store_rows}
use layerscope.Scanner.Run.Held.{
  is_held, Spares, Held, Gone, Waits, Ended, Open, held-update, held-publish, held-prepare,
  suspend-Held, launch-Held, read_output-Held, finish_wait-Held, check_exit-Held, read_results-Held,
  save-Held, take_read_lock-Held,
}

module _ (i : ℕ) where
  pub claim-Held :
      (w : ℕ) → Ensures (Waits i) (λ _. Held is_held i) (Gone i) (Open is_held i) (claim i w)
  unfolding claim
  claim-Held w = record {
    at = λ f h. ground (arith, get-put f.manager i i (claimed_scan w f.manager.clock) (λ s. refl));
  }

  complete-Ended :
      (c : Settings) (found : ℕ)
      → Ensures (Held is_held i) (λ _. Ended i) (Gone i) (Open is_held i) (complete c i found)
  unfolding complete
  complete-Ended c found = record {
    at = λ f h.
        let done = completed_scan c i found f.manager.clock in
        ground (
          arith,
          get-publish_job (put_scan f.manager i done) i i,
          get-put f.manager i i done (λ s. refl),
        );
  }

  pub store_rows-Ended :
      (c : Settings) (rows : List Package × List Finding)
      → Ensures (Held is_held i) (λ _. Ended i) (Gone i) (Open is_held i) (store_rows c i rows)
  unfolding store_rows
  store_rows-Ended c (packages, findings) =
      Ensures-bind (Ensures-on_manager _ (λ f h. held-update is_held refl i f.manager _ refl h))
        λ _.
          Ensures-bind (save-Held is_held refl i packages findings)
            λ _. complete-Ended c (length findings)

  pub body-Ended :
      (c : Settings) (casefold upper : Text → Text) (safe_url : Json → Text) (o : Outside) (w : ℕ)
      → ((a : Await) → Spares i (o.meanwhile a))
      → Ensures
          (Waits i)
          (λ _. Ended i)
          (Gone i)
          (Open is_held i)
          (body c casefold upper safe_url o i w)
  unfolding body
  body-Ended c casefold upper safe_url o w civil = Ensures-bind (claim-Held w) λ path.
      Ensures-bind (Ensures-on_manager _ (λ f h. held-publish is_held refl i f.manager h)) λ _.
        Ensures-bind (suspend-Held is_held refl i o civil lock_wait) λ _.
          Ensures-bind (take_read_lock-Held is_held refl i) λ _.
            Ensures-bind (Ensures-on_manager _ (λ f h. held-prepare is_held refl i o f.manager h))
              λ _. Ensures-bind (launch-Held is_held refl i o civil) λ _.
                Ensures-bind (read_output-Held is_held refl i o civil casefold 0 o.output _) λ r.
                  Ensures-bind (suspend-Held is_held refl i o civil exit_wait) λ _.
                    Ensures-bind (finish_wait-Held is_held refl i c o o.exit) λ code.
                      Ensures-bind (check_exit-Held is_held refl i code r.stderr.tail) λ _.
                        Ensures-bind (read_results-Held is_held refl i c upper safe_url o)
                          λ rows. store_rows-Ended c rows
