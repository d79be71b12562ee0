-- ===== src/Locks/Wakeup.antt =====
-- No waiting task is forgotten: as long as no waiting writer is cancelled, a task that sleeps will
-- be woken by a task that holds the lock, or by a writer that is about to take it.
use layerscope.Base.{ℕ, ◌+◌, ◌<◌, ◌≡◌, ◌≢◌, refl, ◌⊎◌, true, List, [], ◌∷◌, ◌++◌, arith}
use layerscope.Locks.{
  AsyncReadWriteLock, World, Task, outside, reader_asleep, reader_woken, reading, writer_asleep,
  writer_woken, writing, notify_all, can_write, Move, call_read, call_write, resume, release,
  cancel, move,
}
use layerscope.Locks.Exclusion.{count, count-append, awaits_write, IsValid, move-IsValid}

abbrev pub reader_sleeps : Task → ℕ
reader_sleeps reader_asleep = 1
reader_sleeps _ = 0

abbrev pub writer_sleeps : Task → ℕ
writer_sleeps writer_asleep = 1
writer_sleeps _ = 0

abbrev pub writer_stirs : Task → ℕ
writer_stirs writer_woken = 1
writer_stirs _ = 0

-- If the lock is free, no writer sleeps, and a reader sleeps only behind a woken writer.
pub record IsAwake (w : World) : Type 0 where
  pub writers_up : can_write w.lock ≡ true → count writer_sleeps w.tasks ≡ 0
  pub readers_led :
      can_write w.lock ≡ true → 0 < count reader_sleeps w.tasks → 0 < count writer_stirs w.tasks

asleep_split :
    (ts : List Task) → count awaits_write ts ≡ count writer_sleeps ts + count writer_stirs ts
asleep_split [] = refl
asleep_split (t ∷ ts) = ground (arith, asleep_split ts)

none_sleeps :
    (ts : List Task)
    → (count reader_sleeps (notify_all ts) ≡ 0) × (count writer_sleeps (notify_all ts) ≡ 0)
none_sleeps [] = (refl, refl)
none_sleeps (t ∷ ts) = ground (arith, none_sleeps ts)

-- The counts of sleepers with one task replaced.
record Sleepers (before : List Task) (t : Task) (after : List Task) : Type 0 where
  readers :
      count reader_sleeps (before ++ (t ∷ after))
      ≡ count reader_sleeps before + reader_sleeps t + count reader_sleeps after
  writers :
      count writer_sleeps (before ++ (t ∷ after))
      ≡ count writer_sleeps before + writer_sleeps t + count writer_sleeps after
  stirring :
      count writer_stirs (before ++ (t ∷ after))
      ≡ count writer_stirs before + writer_stirs t + count writer_stirs after

sleepers : (before : List Task) (t : Task) (after : List Task) → Sleepers before t after
sleepers before t after = record {
  readers = omega (arith, count-append reader_sleeps before (t ∷ after));
  writers = omega (arith, count-append writer_sleeps before (t ∷ after));
  stirring = omega (arith, count-append writer_stirs before (t ∷ after));
}

pub move-IsAwake :
    (m : Move) (l : AsyncReadWriteLock) (before : List Task) (t : Task) (after : List Task)
    → m ≢ cancel
    → IsValid (record { lock = l; tasks = before ++ (t ∷ after) })
    → IsAwake (record { lock = l; tasks = before ++ (t ∷ after) })
    → IsAwake (move m l before t after)
unfolding move
move-IsAwake call_read l before outside after h v a = ground (
  arith,
  v.counts,
  asleep_split (before ++ (outside ∷ after)),
  sleepers before outside after,
  sleepers before reading after,
  sleepers before reader_asleep after,
)
move-IsAwake call_write l before outside after h v a = ground (
  arith,
  v.counts,
  sleepers before outside after,
  sleepers before writing after,
  sleepers before writer_asleep after,
)
move-IsAwake resume l before reader_woken after h v a = ground (
  arith,
  v.counts,
  asleep_split (before ++ (reader_woken ∷ after)),
  sleepers before reader_woken after,
  sleepers before reading after,
  sleepers before reader_asleep after,
)
move-IsAwake resume l before writer_woken after h v a = ground (
  arith,
  v.counts,
  sleepers before writer_woken after,
  sleepers before writing after,
  sleepers before writer_asleep after,
)
move-IsAwake release l before reading after h v a = ground (
  arith,
  v.counts,
  sleepers before reading after,
  sleepers before outside after,
  none_sleeps (before ++ (outside ∷ after)),
)
move-IsAwake release l before writing after h v a =
    ground (arith, none_sleeps (before ++ (outside ∷ after)))
move-IsAwake cancel l before t after h v a = absurd (h refl)
move-IsAwake _ l before t after h v a = a

-- Steps of tasks whose waits are not cancelled.
pub data Reach (s : World) : World → Type 0 where
  here : Reach s s
  next :
      (m : Move) (l : AsyncReadWriteLock) (before : List Task) (t : Task) (after : List Task)
      → m ≢ cancel
      → Reach s (record { lock = l; tasks = before ++ (t ∷ after) })
      → Reach s (move m l before t after)

Reach-both : {s u : World} → IsValid s → IsAwake s → Reach s u → IsValid u × IsAwake u
Reach-both v a here = (v, a)
Reach-both v a (next m l before t after h r) =
    let (v', a') = Reach-both v a r in
    (move-IsValid m l before t after v', move-IsAwake m l before t after h v' a')

-- After any moves without a cancelled wait: whenever a task sleeps on the lock, some task reads or
-- writes and will notify it on release, or the lock is free and a woken writer is there to take it.
pub no_lost_wakeup :
    {s u : World}
    → IsValid s
    → IsAwake s
    → Reach s u
    → 0 < count reader_sleeps u.tasks + count writer_sleeps u.tasks
    → (0 < u.lock.readers)
      ⊎ (u.lock.writer ≡ true)
      ⊎ ((can_write u.lock ≡ true) × (0 < count writer_stirs u.tasks))
no_lost_wakeup v a r h = ground (arith, (Reach-both v a r).1)
