-- ===== src/EventLoop/Timers.antt =====
-- The timers of src/event_loop.rs and src/time.rs: `handles_sched` is a `BinaryHeap`, here the list
-- of its entries, the greatest by `cmp` first. Which of two equal entries the heap gives first is
-- not specified; no theorem rests on it.
pub mod Order
use Prim.Native.Nat.{Ordering}
use tokioloop.Base.{
  ℕ, ◌+◌, ◌-◌, ◌%◌, ◌^◌, ltb, leb, if◌then◌else◌, Bool, true, false, Option, none, some, List, [],
  ◌∷◌,
}
use tokioloop.Handle.{Handle, Timer, cmp}

abbrev is_greater : Ordering → Bool
is_greater Ordering.gt = true
is_greater _ = false

-- `BinaryHeap::push`
unfoldable pub heap_push : Timer → List Timer → List Timer
unfolding cmp
heap_push t [] = t ∷ []
heap_push t (x ∷ xs) = if is_greater (cmp t x) then t ∷ x ∷ xs else x ∷ heap_push t xs

-- The timers of `step`: `peek` and `pop` while the first is due.
unfoldable pub drain_due : ℕ → List Timer → List Handle × List Timer
drain_due tick [] = ([], [])
drain_due tick (t ∷ ts) =
    let rest = drain_due tick ts in
    if ltb tick t.when then ([], t ∷ ts) else (t.handle ∷ rest.0, rest.1)

-- The poll's timeout in `step`, in microseconds, and whether to skip the poll: from the count of
-- ready handles, the clock, the time of the last poll and the timers. `as u64` wraps.
unfoldable pub poll_plan : ℕ → ℕ → ℕ → List Timer → Option ℕ × Bool
poll_plan counter_ready tick tick_last timers =
    if ltb 0 counter_ready then (some 0, ltb (tick - tick_last) 250) else (next timers, false)
  where
    next : List Timer → Option ℕ
    next [] = none
    next (t ∷ _) = if ltb tick t.when then some ((t.when - tick) % 2 ^ 64) else none
