-- ===== src/EventLoop/Timers/Order.antt =====
-- The order of the timers of src/event_loop.rs and src/time.rs.
use mathlib.Core.List.{map, Perm}
use mathlib.Core.List.Perm
use native.Mathlib.Nat.{mod-eq_of_lt}
use tokioloop.Base.{
  ℕ, ◌+◌, ◌-◌, ◌≤◌, ◌<◌, ◌^◌, ltb, Bool-cases, false, none, some, List, [], ◌∷◌, ◌++◌, ◌≡◌, refl,
  ap, arith, inl, inr,
}
use tokioloop.Handle.{Handle, Timer, cmp}
use tokioloop.EventLoop.Timers.{is_greater, heap_push, drain_due, poll_plan}

-- Every timer of the list is at `n` or later.
abbrev pub From : ℕ → List Timer → Type 0
From n [] = Unit {0}
From n (t ∷ ts) = (n ≤ t.when) × From n ts

-- The times do not fall along the list.
abbrev pub IsOrdered : List Timer → Type 0
IsOrdered [] = Unit {0}
IsOrdered (t ∷ ts) = From t.when ts × IsOrdered ts

-- Every timer of the list is due at `tick`.
abbrev pub IsDue : ℕ → List Timer → Type 0
IsDue tick [] = Unit {0}
IsDue tick (t ∷ ts) = (t.when ≤ tick) × IsDue tick ts

From-mono : {m n : ℕ} (ts : List Timer) → m ≤ n → From n ts → From m ts
From-mono [] h f = tt
From-mono (t ∷ ts) h f = (omega arith, From-mono ts h f.1)

From-heap_push :
    (n : ℕ) (t : Timer) (ts : List Timer) → n ≤ t.when → From n ts → From n (heap_push t ts)
unfolding heap_push
From-heap_push n t [] h f = (h, tt)
From-heap_push n t (x ∷ xs) h f = ground (arith, From-heap_push n t xs h f.1)

heap_push-IsOrdered : (t : Timer) (ts : List Timer) → IsOrdered ts → IsOrdered (heap_push t ts)
unfolding heap_push
heap_push-IsOrdered t [] o = (tt, tt)
heap_push-IsOrdered t (x ∷ xs) o = elim (Bool-cases (is_greater (cmp t x))) [
  | inl first ↦ rw (first, heap_push) (ground (arith, From-mono {m = t.when} {n = x.when} xs))
  | inr later ↦
      rw (later, heap_push)
        (ground (arith, heap_push-IsOrdered t xs o.1, From-heap_push x.when t xs))
]

pub heap_push-Perm : (t : Timer) (ts : List Timer) → Perm (heap_push t ts) (t ∷ ts)
unfolding heap_push
heap_push-Perm t [] = Perm.refl (t ∷ [])
heap_push-Perm t (x ∷ xs) = elim (Bool-cases (is_greater (cmp t x))) [
  | inl first ↦ rw (first, heap_push) (Perm.refl (t ∷ x ∷ xs))
  | inr later ↦
      rw (later, heap_push) (Perm.trans (Perm.cons x (heap_push-Perm t xs)) (Perm.swap t x xs))
]

-- Pushing a timer adds that timer and keeps the heap's order, the earliest first.
pub heap_push_keeps :
    (t : Timer) (ts : List Timer)
    → IsOrdered ts
    → IsOrdered (heap_push t ts) × Perm (heap_push t ts) (t ∷ ts)
heap_push_keeps t ts o = (heap_push-IsOrdered t ts o, heap_push-Perm t ts)

abbrev pub handles : List Timer → List Handle
handles = map λ t. t.handle

-- From an ordered heap `drain_due` pops exactly the timers that are due, the earliest first: the heap
-- is those followed by what is left, each of which is later than the clock.
pub drain_due_splits :
    (tick : ℕ) (ts : List Timer)
    → IsOrdered ts
    → (due : List Timer) × (ts ≡ due ++ (drain_due tick ts).1)
      × IsDue tick due
      × From (tick + 1) (drain_due tick ts).1
      × ((drain_due tick ts).0 ≡ handles due)
unfolding drain_due
drain_due_splits tick [] o = ([], refl, tt, tt, refl)
drain_due_splits tick (t ∷ ts) o = elim (Bool-cases (ltb tick t.when)) [
  | inl later ↦
      rw (later, drain_due)
        (
          [],
          refl,
          tt,
          (ground arith, From-mono {m = tick + 1} {n = t.when} ts (ground arith) o.0),
          refl,
        )
  | inr due ↦
      let (ds, e, d, f, h) = drain_due_splits tick ts o.1 in
      rw (due, drain_due) (t ∷ ds, ap (◌∷◌ t) e, (ground arith, d), f, ap (◌∷◌ t.handle) h)
]

-- With nothing ready and the first timer later than the clock, by less than 2 ^ 64, the poll's timeout
-- ends exactly at that timer.
poll_plan_meets_timer :
    (tick tick_last : ℕ) (t : Timer) (ts : List Timer)
    → tick < t.when
    → t.when - tick < 2 ^ 64
    → (dt : ℕ) × (poll_plan 0 tick tick_last (t ∷ ts) ≡ (some dt, false)) × (tick + dt ≡ t.when)
unfolding poll_plan
poll_plan_meets_timer tick tick_last t ts h small =
    (t.when - tick, ground (arith, mod-eq_of_lt small), omega arith)

-- With nothing ready and the first timer due already, the poll is given no timeout at all.
poll_plan_overdue :
    (tick tick_last : ℕ) (t : Timer) (ts : List Timer)
    → t.when ≤ tick
    → poll_plan 0 tick tick_last (t ∷ ts) ≡ (none, false)
unfolding poll_plan
poll_plan_overdue tick tick_last t ts h = ground arith
