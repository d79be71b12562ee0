-- ===== src/Scanner/Task.antt =====
-- The body of a coroutine with `try`: what it returns early with, what it raises, and the local
-- variables that its `finally` reads.
pub mod Ensures
use layerscope.Base.{◌≡◌, Bool}
use layerscope.Scanner.{ScanManager}
use layerscope.Scanner.Jobs.{Exception}

-- How a piece of the body ends: with a value, by `return`, by an exception, or by the cancellation
-- of its task.
pub data Flow {ℓ} (A : Type ℓ) : Type ℓ where
  go : A → Flow A
  leave : Flow A
  raise : Exception → Flow A
  interrupted : Flow A

-- `read_lock`, and whether `workspace` and `process` are set.
pub record Frame : Type 0 where
  pub manager : ScanManager
  pub read_lock : Bool
  pub workspace : Bool
  pub process : Bool

abbrev pub Task : Type 0 → Type 0
Task A = Frame → Flow A × Frame

abbrev pub continue : {A B : Type 0} → Flow A → (A → Task B) → Task B
continue (go a) f s = f a s
continue leave f s = (leave, s)
continue (raise e) f s = (raise e, s)
continue interrupted f s = (interrupted, s)

infixl 5 ◌>>=◌ ◌>>◌
unfoldable pub ◌>>=◌ : {A B : Type 0} → Task A → (A → Task B) → Task B
◌>>=◌ m f s = let (r, s') = m s in continue r f s'

abbrev pub ◌>>◌ : {B : Type 0} → Task (Unit {0}) → Task B → Task B
m >> k = m >>= λ _. k

unfoldable pub pure : {A : Type 0} → A → Task A
pure a s = (go a, s)

unfoldable pub stop : {A : Type 0} → Flow A → Task A
stop r s = (r, s)

-- A statement that changes the manager alone.
unfoldable pub on_manager : (ScanManager → ScanManager) → Task (Unit {0})
on_manager f s = (go tt, record s { manager = f s.manager })
