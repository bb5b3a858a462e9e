-- ===== src/EventLoop/Schedule/Added.antt =====
-- Which entry the scheduling calls of src/event_loop.rs add, and where.
use mathlib.Core.List.{Perm}
use tokioloop.Base.{
  ℕ, ◌+◌, ◌%◌, ◌^◌, if◌then◌else◌, Bool, false, true, ◌&&◌, Option, none, some, [], ◌∷◌, ◌++◌, ◌≡◌,
  refl,
}
use tokioloop.Deps.{Deps}
use tokioloop.Handle.{Handle, Timer, cb_handle, cb_handle_no_args, cb_handle_one_arg, cancelled}
use tokioloop.World.{World, wake, store_self}
use tokioloop.EventLoop.Timers.Order.{IsOrdered, heap_push-Perm, heap_push_keeps}
use tokioloop.EventLoop.Schedule.{
  or_else, push_ready, push_timer, schedule0, schedule1, schedule, schedule_later0, schedule_later1,
  schedule_later, schedule_handle, call_soon, call_soon_threadsafe, call_later,
}
use tokioloop.EventLoop.Schedule.Counter.{
  Call, schedules0, schedules1, schedules, schedules_later0, schedules_later1, schedules_later,
  schedules_handle, calls_soon, calls_soon_threadsafe, calls_later, perform,
}

-- `call_soon` and `call_later` are for the loop's own thread, and wake nothing.
abbrev is_waking : Call → Bool
is_waking (calls_soon _ _ _ _ _) = false
is_waking (calls_later _ _ _ _ _ _) = false
is_waking _ = true

-- The entry of a call, whose default context is `base`.
abbrev entry : Call → ℕ → Handle
entry (schedules0 f c cell) base = cb_handle_no_args f (or_else c base) cell
entry (schedules1 f a c cell) base = cb_handle_one_arg f a (or_else c base) cell
entry (schedules f a c cell) base = cb_handle_one_arg f a (or_else c base) cell
entry (schedules_later0 d f c cell now) base = cb_handle_no_args f (or_else c base) cell
entry (schedules_later1 d f a c cell now) base = cb_handle_one_arg f a (or_else c base) cell
entry (schedules_later d f a c cell now) base = cb_handle f a (or_else c base) cell
entry (schedules_handle h d now) base = h
entry (calls_soon f a c ctx cell) base = cb_handle f a (or_else c ctx) cell
entry (calls_soon_threadsafe f a c cell) base = cb_handle f a (or_else c base) cell
entry (calls_later d f a c cell now) base = cb_handle f a c cell

-- The time of the calls that wait.
abbrev due : Call → Option ℕ
due (schedules_later0 d f c cell now) = some (now + d)
due (schedules_later1 d f a c cell now) = some (now + d)
due (schedules_later d f a c cell now) = some (now + d)
due (schedules_handle h (some d) now) = some (now + d)
due (calls_later d f a c cell now) = some (now + d)
due _ = none

-- `schedule_handle` is given a handle, which may be cancelled; the others make one.
abbrev makes_handle : Call → Bool
makes_handle (schedules_handle _ _ _) = false
makes_handle _ = true

module _ (D : Deps) where
  -- The handle is in exactly one place, behind all that were ready or among the timers, which keep their
  -- order; the counter is of the ready ones.
  abbrev Added : Option ℕ → Handle → World D → World D → Type 0
  Added none h w w' =
      (w'.handles_ready ≡ w.handles_ready ++ (h ∷ []))
      × (w'.counter_ready ≡ (w.counter_ready + 1) % 2 ^ 64)
      × (w'.handles_sched ≡ w.handles_sched)
  Added (some when) h w w' =
      (w'.handles_ready ≡ w.handles_ready)
      × (w'.counter_ready ≡ w.counter_ready)
      × Perm w'.handles_sched (record { handle = h; when = when } ∷ w.handles_sched)
      × (IsOrdered w.handles_sched → IsOrdered w'.handles_sched)

  pub record Schedules (c : Call) (w w' : World D) : Type 0 where
    pub added : Added (due c) (entry c w.base_ctx) w w'
    pub wakes : w'.wakes ≡ (if is_waking c && w.idle then w.wakes + 1 else w.wakes)
    pub runs : makes_handle c ≡ true → cancelled w'.flags (entry c w.base_ctx) ≡ false

  push_timer-Added :
      (h : Handle) (when : ℕ) (w : World D) → Added (some when) h w (push_timer D h when w)
  unfolding push_timer
  push_timer-Added h when w =
      let t : Timer = record { handle = h; when = when } in
      (refl, refl, heap_push-Perm t w.handles_sched, λ o. (heap_push_keeps t w.handles_sched o).0)

  -- Every scheduling call adds its handle, with the call's callback, argument and context, in one place: a call
  -- without delay at the end of the ready queue, with the counter one more (as a 64-bit number) and the
  -- timers as they were; a call with a delay among the timers, which keep their order, at the clock plus
  -- the delay, with the ready queue and its counter as they were. It wakes the poll exactly if the loop
  -- is idle and the call is not one for the loop's own thread. A handle that the call makes is not
  -- cancelled.
  pub perform-Schedules : (c : Call) (w : World D) → Schedules c w (perform D c w)
  unfolding perform schedule0 schedule1 schedule schedule_later0 schedule_later1 schedule_later
      schedule_handle call_soon call_soon_threadsafe call_later push_ready push_timer wake cancelled
  perform-Schedules (schedules0 f c cell) w = record {
    added = (refl, refl, refl);
    wakes = refl;
    runs = λ e. store_self w.flags cell false;
  }
  perform-Schedules (schedules1 f a c cell) w = record {
    added = (refl, refl, refl);
    wakes = refl;
    runs = λ e. refl;
  }
  perform-Schedules (schedules f a c cell) w = record {
    added = (refl, refl, refl);
    wakes = refl;
    runs = λ e. refl;
  }
  perform-Schedules (schedules_later0 d f c cell now) w = record {
    added = push_timer-Added (cb_handle_no_args f (or_else c w.base_ctx) cell) (now + d) w;
    wakes = refl;
    runs = λ e. store_self w.flags cell false;
  }
  perform-Schedules (schedules_later1 d f a c cell now) w = record {
    added = push_timer-Added (cb_handle_one_arg f a (or_else c w.base_ctx) cell) (now + d) w;
    wakes = refl;
    runs = λ e. refl;
  }
  perform-Schedules (schedules_later d f a c cell now) w = record {
    added = push_timer-Added (cb_handle f a (or_else c w.base_ctx) cell) (now + d) w;
    wakes = refl;
    runs = λ e. store_self w.flags cell false;
  }
  perform-Schedules (schedules_handle h (some d) now) w = record {
    added = push_timer-Added (h) (now + d) w;
    wakes = refl;
    runs = λ e. cc;
  }
  perform-Schedules (schedules_handle h none now) w = record {
    added = (refl, refl, refl);
    wakes = refl;
    runs = λ e. cc;
  }
  perform-Schedules (calls_soon f a c ctx cell) w = record {
    added = (refl, refl, refl);
    wakes = refl;
    runs = λ e. store_self w.flags cell false;
  }
  perform-Schedules (calls_soon_threadsafe f a c cell) w = record {
    added = (refl, refl, refl);
    wakes = refl;
    runs = λ e. store_self w.flags cell false;
  }
  perform-Schedules (calls_later d f a c cell now) w = record {
    added = push_timer-Added (cb_handle f a c cell) (now + d) w;
    wakes = refl;
    runs = λ e. store_self w.flags cell false;
  }
