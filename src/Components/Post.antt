-- ===== src/Components/Post.antt =====
-- Postconditions of the pieces of a maintenance job, for each way in which a piece ends.
use layerscope.Base.{ℕ, suc, Bool, true, false, List, [], ◌∷◌, if◌then◌else◌}
use layerscope.Base.Text.{Text, strip, nonempty}
use layerscope.Scanner.Outside.{Answer, gives, throws}
use layerscope.Scanner.Task.{Flow, go, leave, raise, interrupted}
use layerscope.Components.{ComponentManager}
use layerscope.Components.Outside.{Await, line_wait, Outside}
use layerscope.Components.Download.{
  Work, after, ◌>>=◌, suspend_job, answer_job, doing, consume_progress, consume,
}

-- `Q` where a piece goes on, `L` at a `return`, `P` at an exception or cancellation.
abbrev pub Post :
    {A : Type 0} (P Q L : ComponentManager → Type 0) → Flow A × ComponentManager → Type 0
Post P Q L (go a, m) = Q m
Post P Q L (leave, m) = L m
Post P Q L (raise e, m) = P m
Post P Q L (interrupted, m) = P m

-- From a state with `P`.
pub record Ends {A : Type 0} (P Q L : ComponentManager → Type 0) (t : Work A) : Type 0 where
  pub at : (m : ComponentManager) → P m → Post P Q L (t m)

module _ {A B : Type 0} {P Q L : ComponentManager → Type 0} where
  pub after-Post :
      (r : Flow A) (k : A → Work B) (m : ComponentManager)
      → Post P P L (r, m)
      → ((a : A) → Ends P Q L (k a))
      → Post P Q L (after r k m)
  after-Post (go a) k m h e = (e a).at m h
  after-Post leave k m h e = h
  after-Post (raise x) k m h e = h
  after-Post interrupted k m h e = h

  pub Ends-bind :
      {t : Work A} {k : A → Work B}
      → Ends P P L t
      → ((a : A) → Ends P Q L (k a))
      → Ends P Q L (t >>= k)
  unfolding ◌>>=◌
  Ends-bind {t = t} {k = k} h e = record { at = λ m p. after-Post (t m).0 k (t m).1 (h.at m p) e }

module _ {P Q L : ComponentManager → Type 0} where
  pub Ends-doing :
      (f : ComponentManager → ComponentManager)
      → ((m : ComponentManager) → P m → Q (f m))
      → Ends P Q L (doing f)
  unfolding doing
  Ends-doing f h = record { at = h }

module _ {P L : ComponentManager → Type 0} where
  pub Ends-answer_job : {A : Type 0} (a : Answer A) → Ends P P L (answer_job a)
  unfolding answer_job
  Ends-answer_job (gives a) = record { at = λ m h. h }
  Ends-answer_job (throws e) = record { at = λ m h. h }

-- A property that the other tasks keep.
module _ {P : ComponentManager → Type 0} (L : ComponentManager → Type 0) (o : Outside)
    (others : (a : Await) (m : ComponentManager) → P m → P (o.meanwhile a m)) where
  suspended :
      (b : Bool) (a : Await) (m : ComponentManager)
      → P m
      → Post {A = Unit {0}} P P L
          (if b then (interrupted, o.meanwhile a m) else (go tt, o.meanwhile a m))
  suspended true a m h = others a m h
  suspended false a m h = others a m h

  pub Ends-suspend_job : (a : Await) → Ends P P L (suspend_job o a)
  unfolding suspend_job
  Ends-suspend_job a = record { at = λ m h. suspended (o.interrupts a) a m h }

  module _ (casefold : Text → Text) (i : ℕ)
      (progress : (line : Text) (m : ComponentManager)
        → P m
        → P (consume_progress casefold i line m)) where
    progress_if :
        (b : Bool) (line : Text) (m : ComponentManager)
        → P m
        → P (if b then consume_progress casefold i line m else m)
    progress_if true line m h = progress line m h
    progress_if false line m h = h

    pub Ends-consume :
        (n : ℕ) (output lines : List Text) → Ends P P L (consume casefold o i n output lines)
    unfolding consume
    Ends-consume n [] lines = record { at = λ m h. h }
    Ends-consume n (raw ∷ rest) lines = record {
      at = λ m h.
          (Ends-bind (Ends-suspend_job (line_wait n)) (λ _.
              Ends-bind
                (Ends-doing
                  (λ m'.
                    if nonempty (strip raw) then consume_progress casefold i (strip raw) m' else m')
                  (progress_if (nonempty (strip raw)) (strip raw)))
                (λ _. Ends-consume (suc n) rest _))).at
            m h;
    }
