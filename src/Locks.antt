-- ===== src/Locks.antt =====
-- backend/app/locks.py: the read-write lock that lets scans share the vulnerability database and
-- gives maintenance exclusive access. A task of the event loop runs a piece of a method between
-- two suspensions; an `asyncio.Condition` puts a task to sleep until `notify_all` wakes it, and a
-- woken task tests its predicate again.
pub mod Exclusion
pub mod Wakeup
use layerscope.Base.{
  ℕ, ◌+◌, ◌-◌, Bool, true, false, not, ◌&&◌, List, [], ◌∷◌, ◌++◌, ◌==◌, if◌then◌else◌,
}

-- The fields of `AsyncReadWriteLock`.
pub record AsyncReadWriteLock : Type 0 where
  pub readers : ℕ
  pub writer : Bool
  pub waiting_writers : ℕ

unfoldable pub init : AsyncReadWriteLock
init = record { readers = 0; writer = false; waiting_writers = 0 }

-- The predicates that `wait_for` is given.
abbrev pub can_read : AsyncReadWriteLock → Bool
can_read l = not l.writer && l.waiting_writers == 0

abbrev pub can_write : AsyncReadWriteLock → Bool
can_write l = not l.writer && l.readers == 0

-- Where a task stands: outside, asleep in `wait_for`, woken by a notification, or past the
-- acquisition.
pub data Task : Type 0 where
  outside reader_asleep reader_woken reading writer_asleep writer_woken writing : Task

pub record World : Type 0 where
  pub lock : AsyncReadWriteLock
  pub tasks : List Task

-- `notify_all`: every sleeping task will test its predicate again.
abbrev pub wake : Task → Task
wake reader_asleep = reader_woken
wake writer_asleep = writer_woken
wake outside = outside
wake reader_woken = reader_woken
wake reading = reading
wake writer_woken = writer_woken
wake writing = writing

abbrev pub notify_all : List Task → List Task
notify_all [] = []
notify_all (t ∷ ts) = wake t ∷ notify_all ts

-- The loop of `wait_for` in `acquire_read`, at the call and after each notification.
unfoldable pub try_read : AsyncReadWriteLock → AsyncReadWriteLock × Task
try_read l =
    if can_read l then (record l { readers = l.readers + 1 }, reading) else (l, reader_asleep)

-- The loop of `wait_for` in `acquire_write`; the `finally` runs when it ends.
unfoldable pub try_write : AsyncReadWriteLock → AsyncReadWriteLock × Task
try_write l =
    if can_write l
    then (record l { writer = true; waiting_writers = l.waiting_writers - 1 }, writing)
    else (l, writer_asleep)

unfoldable pub acquire_write : AsyncReadWriteLock → AsyncReadWriteLock × Task
unfolding try_write
acquire_write l = try_write (record l { waiting_writers = l.waiting_writers + 1 })

unfoldable pub release_read : AsyncReadWriteLock → List Task → AsyncReadWriteLock × List Task
release_read l ts =
    let l' = record l { readers = l.readers - 1 } in
    (l', if l'.readers == 0 then notify_all ts else ts)

unfoldable pub release_write : AsyncReadWriteLock → List Task → AsyncReadWriteLock × List Task
release_write l ts = (record l { writer = false }, notify_all ts)

-- A waiting writer is cancelled: only the `finally` runs, and nothing is notified.
unfoldable pub abandon_write : AsyncReadWriteLock → AsyncReadWriteLock
abandon_write l = record l { waiting_writers = l.waiting_writers - 1 }

-- What a task may do next.
pub data Move : Type 0 where
  call_read call_write resume release cancel : Move

-- One task's move: the lock and all tasks after it. A move that the task cannot make changes
-- nothing. `before` and `after` are the other tasks.
unfoldable pub move : Move → AsyncReadWriteLock → List Task → Task → List Task → World
unfolding try_read try_write acquire_write release_read release_write abandon_write
move call_read l before outside after =
    let (l', t) = try_read l in record { lock = l'; tasks = before ++ (t ∷ after) }
move call_write l before outside after =
    let (l', t) = acquire_write l in record { lock = l'; tasks = before ++ (t ∷ after) }
move resume l before reader_woken after =
    let (l', t) = try_read l in record { lock = l'; tasks = before ++ (t ∷ after) }
move resume l before writer_woken after =
    let (l', t) = try_write l in record { lock = l'; tasks = before ++ (t ∷ after) }
move release l before reading after =
    let (l', ts) = release_read l (before ++ (outside ∷ after)) in record { lock = l'; tasks = ts }
move release l before writing after =
    let (l', ts) = release_write l (before ++ (outside ∷ after)) in record { lock = l'; tasks = ts }
move cancel l before writer_asleep after = record {
  lock = abandon_write l;
  tasks = before ++ (outside ∷ after);
}
move cancel l before writer_woken after = record {
  lock = abandon_write l;
  tasks = before ++ (outside ∷ after);
}
move cancel l before reader_asleep after = record { lock = l; tasks = before ++ (outside ∷ after) }
move cancel l before reader_woken after = record { lock = l; tasks = before ++ (outside ∷ after) }
move _ l before t after = record { lock = l; tasks = before ++ (t ∷ after) }

-- Any task moves, in any order.
pub data Step : World → World → Type 0 where
  step :
      (m : Move) (l : AsyncReadWriteLock) (before : List Task) (t : Task) (after : List Task)
      → Step (record { lock = l; tasks = before ++ (t ∷ after) }) (move m l before t after)
