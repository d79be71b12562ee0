-- ===== src/Tests/Locks.antt =====
-- A run of the lock: one task writes, one reads afterwards, one waits.
use layerscope.Base.{◌+◌, ◌≤◌, ◌<◌, ◌≡◌, refl, ◌⊎◌, true, [], ◌∷◌, arith}
use layerscope.Locks.{
  World, outside, writing, init, can_write, call_read, call_write, move, step, try_read, try_write,
  acquire_write,
}
use layerscope.Locks.Exclusion
use layerscope.Locks.Exclusion.{
  count, holds_read, holds_write, awaits_write, one_if, mutual_exclusion,
}
use layerscope.Locks.Wakeup
use layerscope.Locks.Wakeup.{reader_sleeps, writer_sleeps, writer_stirs, no_lost_wakeup}

abbrev idle_world : World
idle_world = record { lock = init; tasks = outside ∷ outside ∷ [] }

-- The first task takes the lock to write, then the second asks to read and sleeps.
abbrev one_writes : World
one_writes = move call_write init [] outside (outside ∷ [])

abbrev one_waits : World
one_waits = move call_read one_writes.lock (writing ∷ []) outside []

first : Exclusion.Reach idle_world one_writes
unfolding init
first = Exclusion.next Exclusion.here (step call_write init [] outside (outside ∷ []))

waits_reached : Exclusion.Reach idle_world one_waits
unfolding init move try_write acquire_write
waits_reached = Exclusion.next first (step call_read one_writes.lock (writing ∷ []) outside [])

idle-IsValid : Exclusion.IsValid idle_world
unfolding init
idle-IsValid = record {
  counts = record { read = refl; write = refl; await = refl };
  exclusive = λ e. refl;
}

mutual_exclusion_example :
    (count holds_write one_waits.tasks ≤ 1)
    × (count holds_write one_waits.tasks ≡ 1 → count holds_read one_waits.tasks ≡ 0)
    × (one_waits.lock.readers ≡ count holds_read one_waits.tasks)
    × (one_waits.lock.waiting_writers ≡ count awaits_write one_waits.tasks)
    × (one_if one_waits.lock.writer ≡ count holds_write one_waits.tasks)
mutual_exclusion_example = mutual_exclusion idle-IsValid waits_reached

idle-IsAwake : Wakeup.IsAwake idle_world
unfolding init
idle-IsAwake = record { writers_up = λ e. refl; readers_led = λ e h. omega (arith, h) }

woken_reached : Wakeup.Reach idle_world one_waits
unfolding init move try_write acquire_write
woken_reached =
    Wakeup.next call_read one_writes.lock (writing ∷ []) outside [] (λ e. cc)
      (Wakeup.next call_write init [] outside (outside ∷ []) (λ e. cc) Wakeup.here)

one_sleeps : 0 < count reader_sleeps one_waits.tasks + count writer_sleeps one_waits.tasks
unfolding init move try_write acquire_write try_read
one_sleeps = omega arith

no_lost_wakeup_example :
    (0 < one_waits.lock.readers)
    ⊎ (one_waits.lock.writer ≡ true)
    ⊎ ((can_write one_waits.lock ≡ true) × (0 < count writer_stirs one_waits.tasks))
no_lost_wakeup_example = no_lost_wakeup idle-IsValid idle-IsAwake woken_reached one_sleeps
