-- ===== src/Scanner/Task/Ensures.antt =====
-- Postconditions of the pieces of a coroutine, for each way in which a piece ends.
use layerscope.Base.{Bool, true, false, if◌then◌else◌}
use layerscope.Scanner.{ScanManager}
use layerscope.Scanner.Jobs.{Exception}
use layerscope.Scanner.Task.{
  Flow, go, leave, raise, interrupted, Frame, Task, continue, ◌>>=◌, pure, stop, on_manager,
}

abbrev pub Post :
    {A : Type 0} (Q : A → Frame → Type 0) (L E : Frame → Type 0) → Flow A → Frame → Type 0
Post Q L E (go a) f = Q a f
Post Q L E leave f = L f
Post Q L E (raise e) f = E f
Post Q L E interrupted f = E f

-- From a frame with `P`: `Q` with the value, `L` at a `return`, `E` at an exception or cancellation.
pub record Ensures {A : Type 0} (P : Frame → Type 0) (Q : A → Frame → Type 0) (L E : Frame → Type 0)
    (t : Task A) : Type 0 where
  pub at : (f : Frame) → P f → Post Q L E (t f).0 (t f).1

module _ {A B : Type 0} {Q : A → Frame → Type 0} {R : B → Frame → Type 0}
    {L E : Frame → Type 0} where
  continue-Post :
      (r : Flow A) (k : A → Task B) (f : Frame)
      → Post Q L E r f
      → ((a : A) → Ensures (Q a) R L E (k a))
      → Post R L E (continue r k f).0 (continue r k f).1
  continue-Post (go a) k f h e = (e a).at f h
  continue-Post leave k f h e = h
  continue-Post (raise x) k f h e = h
  continue-Post interrupted k f h e = h

  pub Ensures-bind :
      {P : Frame → Type 0} {t : Task A} {k : A → Task B}
      → Ensures P Q L E t
      → ((a : A) → Ensures (Q a) R L E (k a))
      → Ensures P R L E (t >>= k)
  unfolding ◌>>=◌
  Ensures-bind {t = t} {k = k} h e = record {
    at = λ f p. continue-Post (t f).0 k (t f).1 (h.at f p) e;
  }

module _ {P : Frame → Type 0} {L E : Frame → Type 0} where
  pub Ensures-on_manager :
      (g : ScanManager → ScanManager) {R : Frame → Type 0}
      → ((f : Frame) → P f → R (record f { manager = g f.manager }))
      → Ensures P (λ _. R) L E (on_manager g)
  unfolding on_manager
  Ensures-on_manager g h = record { at = h }

  pub Ensures-pure : {A : Type 0} (a : A) → Ensures P (λ _. P) L E (pure a)
  unfolding pure
  Ensures-pure a = record { at = λ f p. p }

module _ {A : Type 0} {P : Frame → Type 0} {Q : A → Frame → Type 0} {L E : Frame → Type 0} where
  pub Ensures-if :
      (b : Bool) (t u : Task A)
      → Ensures P Q L E t
      → Ensures P Q L E u
      → Ensures P Q L E (if b then t else u)
  Ensures-if true t u h k = h
  Ensures-if false t u h k = k

  pub Ensures-raise : (e : Exception) → ((f : Frame) → P f → E f) → Ensures P Q L E (stop (raise e))
  unfolding stop
  Ensures-raise e h = record { at = h }

module _ {A : Type 0} {Q R : A → Frame → Type 0} {L M E F : Frame → Type 0} where
  Post-weaken :
      ((a : A) (f : Frame) → Q a f → R a f)
      → ((f : Frame) → L f → M f)
      → ((f : Frame) → E f → F f)
      → (r : Flow A) (f : Frame) → Post Q L E r f
      → Post R M F r f
  Post-weaken q l e (go a) f h = q a f h
  Post-weaken q l e leave f h = l f h
  Post-weaken q l e (raise x) f h = e f h
  Post-weaken q l e interrupted f h = e f h

  pub Ensures-weaken :
      {P : Frame → Type 0} {t : Task A}
      → ((a : A) (f : Frame) → Q a f → R a f)
      → ((f : Frame) → L f → M f)
      → ((f : Frame) → E f → F f)
      → Ensures P Q L E t
      → Ensures P R M F t
  Ensures-weaken {t = t} q l e h = record {
    at = λ f p. Post-weaken q l e (t f).0 (t f).1 (h.at f p);
  }
