-- ===== src/Locks/Exclusion.antt =====
-- The counters of the lock count its tasks, and a writer excludes everybody else.
use layerscope.Base.{
  ℕ, ◌+◌, ◌≤◌, ◌≡◌, refl, sym, ◌∙◌, Bool, true, false, List, [], ◌∷◌, ◌++◌, arith,
}
use layerscope.Locks.{
  AsyncReadWriteLock, World, Task, outside, reader_asleep, reader_woken, reading, writer_asleep,
  writer_woken, writing, wake, notify_all, Move, call_read, call_write, resume, release, cancel,
  move, Step, step,
}

-- How many tasks stand where `weigh` counts one.
abbrev pub count : (Task → ℕ) → List Task → ℕ
count weigh [] = 0
count weigh (t ∷ ts) = weigh t + count weigh ts

abbrev pub holds_read : Task → ℕ
holds_read reading = 1
holds_read _ = 0

abbrev pub holds_write : Task → ℕ
holds_write writing = 1
holds_write _ = 0

abbrev pub awaits_write : Task → ℕ
awaits_write writer_asleep = 1
awaits_write writer_woken = 1
awaits_write _ = 0

abbrev pub one_if : Bool → ℕ
one_if true = 1
one_if false = 0

pub count-append :
    (weigh : Task → ℕ) (xs ys : List Task)
    → count weigh (xs ++ ys) ≡ count weigh xs + count weigh ys
count-append weigh [] ys = omega arith
count-append weigh (x ∷ xs) ys = omega (arith, count-append weigh xs ys)

-- Waking changes neither who holds the lock nor who waits for it.
count-notify_all :
    (weigh : Task → ℕ)
    → ((t : Task) → weigh (wake t) ≡ weigh t)
    → (ts : List Task) → count weigh (notify_all ts) ≡ count weigh ts
count-notify_all weigh same [] = refl
count-notify_all weigh same (t ∷ ts) = omega (arith, same t, count-notify_all weigh same ts)

holds_read-wake : (t : Task) → holds_read (wake t) ≡ holds_read t
holds_read-wake t = ground arith

holds_write-wake : (t : Task) → holds_write (wake t) ≡ holds_write t
holds_write-wake t = ground arith

awaits_write-wake : (t : Task) → awaits_write (wake t) ≡ awaits_write t
awaits_write-wake t = ground arith

-- The three counts of a list of tasks with one task replaced.
pub record Counts (r w a : ℕ) (ts : List Task) : Type 0 where
  pub read : r ≡ count holds_read ts
  pub write : w ≡ count holds_write ts
  pub await : a ≡ count awaits_write ts

pub record IsValid (w : World) : Type 0 where
  pub counts : Counts w.lock.readers (one_if w.lock.writer) w.lock.waiting_writers w.tasks
  pub exclusive : w.lock.writer ≡ true → w.lock.readers ≡ 0

module _ (before : List Task) (t : Task) (after : List Task) where
  split_read :
      count holds_read (before ++ (t ∷ after))
      ≡ count holds_read before + holds_read t + count holds_read after
  split_read = omega (arith, count-append holds_read before (t ∷ after))

  split_write :
      count holds_write (before ++ (t ∷ after))
      ≡ count holds_write before + holds_write t + count holds_write after
  split_write = omega (arith, count-append holds_write before (t ∷ after))

  split_await :
      count awaits_write (before ++ (t ∷ after))
      ≡ count awaits_write before + awaits_write t + count awaits_write after
  split_await = omega (arith, count-append awaits_write before (t ∷ after))

notify-Counts : (r w a : ℕ) (ts : List Task) → Counts r w a ts → Counts r w a (notify_all ts)
notify-Counts r w a ts c = record {
  read = c.read ∙ sym (count-notify_all holds_read holds_read-wake ts);
  write = c.write ∙ sym (count-notify_all holds_write holds_write-wake ts);
  await = c.await ∙ sym (count-notify_all awaits_write awaits_write-wake ts);
}

-- The counts of a list with one task replaced, for every task that may stand there.
split_Counts :
    (before : List Task) (t : Task) (after : List Task)
    → Counts
        (count holds_read before + holds_read t + count holds_read after)
        (count holds_write before + holds_write t + count holds_write after)
        (count awaits_write before + awaits_write t + count awaits_write after)
        (before ++ (t ∷ after))
split_Counts before t after = record {
  read = sym (split_read before t after);
  write = sym (split_write before t after);
  await = sym (split_await before t after);
}

-- Every move of every task keeps the counters and the exclusion, cancellation included.
pub move-IsValid :
    (m : Move) (l : AsyncReadWriteLock) (before : List Task) (t : Task) (after : List Task)
    → IsValid (record { lock = l; tasks = before ++ (t ∷ after) })
    → IsValid (move m l before t after)
unfolding move
move-IsValid call_read l before outside after v = ground (
  arith,
  v.counts,
  split_Counts before outside after,
  split_Counts before reading after,
  split_Counts before reader_asleep after,
)
move-IsValid call_write l before outside after v = ground (
  arith,
  v.counts,
  split_Counts before outside after,
  split_Counts before writing after,
  split_Counts before writer_asleep after,
)
move-IsValid resume l before reader_woken after v = ground (
  arith,
  v.counts,
  split_Counts before reader_woken after,
  split_Counts before reading after,
  split_Counts before reader_asleep after,
)
move-IsValid resume l before writer_woken after v = ground (
  arith,
  v.counts,
  split_Counts before writer_woken after,
  split_Counts before writing after,
  split_Counts before writer_asleep after,
)
move-IsValid release l before reading after v = ground (
  arith,
  v.counts,
  split_Counts before reading after,
  split_Counts before outside after,
  notify-Counts _ _ _ (before ++ (outside ∷ after)) (split_Counts before outside after),
)
move-IsValid release l before writing after v = ground (
  arith,
  v.counts,
  split_Counts before writing after,
  split_Counts before outside after,
  notify-Counts _ _ _ (before ++ (outside ∷ after)) (split_Counts before outside after),
)
move-IsValid cancel l before writer_asleep after v =
    ground
      (arith, v.counts, split_Counts before writer_asleep after, split_Counts before outside after)
move-IsValid cancel l before writer_woken after v =
    ground
      (arith, v.counts, split_Counts before writer_woken after, split_Counts before outside after)
move-IsValid cancel l before reader_asleep after v =
    ground
      (arith, v.counts, split_Counts before reader_asleep after, split_Counts before outside after)
move-IsValid cancel l before reader_woken after v =
    ground
      (arith, v.counts, split_Counts before reader_woken after, split_Counts before outside after)
move-IsValid _ l before t after v = v

pub data Reach (s : World) : World → Type 0 where
  here : Reach s s
  next : {t u : World} → Reach s t → Step t u → Reach s u

Step-IsValid : {t u : World} → Step t u → IsValid t → IsValid u
Step-IsValid (step m l before t after) v = move-IsValid m l before t after v

Reach-IsValid : {s u : World} → IsValid s → Reach s u → IsValid u
Reach-IsValid v here = v
Reach-IsValid v (next r st) = Step-IsValid st (Reach-IsValid v r)

-- From a world whose counters agree with its tasks, after any moves of any tasks in any order,
-- cancelled waits included: at most one task writes; while one writes, no task reads; and the three
-- counters of the lock are the numbers of tasks that read, write and wait to write.
pub mutual_exclusion :
    {s u : World}
    → IsValid s
    → Reach s u
    → (count holds_write u.tasks ≤ 1)
      × (count holds_write u.tasks ≡ 1 → count holds_read u.tasks ≡ 0)
      × (u.lock.readers ≡ count holds_read u.tasks)
      × (u.lock.waiting_writers ≡ count awaits_write u.tasks)
      × (one_if u.lock.writer ≡ count holds_write u.tasks)
mutual_exclusion v r = ground (arith, Reach-IsValid v r)
