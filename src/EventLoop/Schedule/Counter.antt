-- ===== src/EventLoop/Schedule/Counter.antt =====
-- What the scheduling calls of src/event_loop.rs keep: the counter of ready handles and the order of the
-- timers.
use tokioloop.Base.{ℕ, ◌%◌, ◌^◌, Option, none, some, [], ◌∷◌, length, length-append, ◌≡◌, arith}
use tokioloop.Deps.{Deps}
use tokioloop.Handle.{Handle}
use tokioloop.World.{World, wake, new_cell}
use tokioloop.EventLoop.Timers.Order.{IsOrdered, heap_push_keeps}
use tokioloop.EventLoop.Schedule.{
  push_ready, push_timer, schedule0, schedule1, schedule, schedule_later0, schedule_later1,
  schedule_later, schedule_handle, call_soon, call_soon_threadsafe, call_later,
}

-- A scheduling call, with its arguments, the new flag and the clock where it reads it.
pub data Call : Type 0 where
  schedules0 : ℕ → Option ℕ → ℕ → Call
  schedules1 : ℕ → ℕ → Option ℕ → ℕ → Call
  schedules : ℕ → ℕ → Option ℕ → ℕ → Call
  schedules_later0 : ℕ → ℕ → Option ℕ → ℕ → ℕ → Call
  schedules_later1 : ℕ → ℕ → ℕ → Option ℕ → ℕ → ℕ → Call
  schedules_later : ℕ → ℕ → ℕ → Option ℕ → ℕ → ℕ → Call
  schedules_handle : Handle → Option ℕ → ℕ → Call
  calls_soon : ℕ → ℕ → Option ℕ → ℕ → ℕ → Call
  calls_soon_threadsafe : ℕ → ℕ → Option ℕ → ℕ → Call
  calls_later : ℕ → ℕ → ℕ → ℕ → ℕ → ℕ → Call

module _ (D : Deps) where
  unfoldable pub perform : Call → World D → World D
  unfolding schedule0 schedule1 schedule schedule_later0 schedule_later1 schedule_later
      schedule_handle call_soon call_soon_threadsafe call_later
  perform (schedules0 f c cell) w = schedule0 D f c cell w
  perform (schedules1 f a c cell) w = schedule1 D f a c cell w
  perform (schedules f a c cell) w = schedule D f a c cell w
  perform (schedules_later0 d f c cell now) w = schedule_later0 D d f c cell now w
  perform (schedules_later1 d f a c cell now) w = schedule_later1 D d f a c cell now w
  perform (schedules_later d f a c cell now) w = schedule_later D d f a c cell now w
  perform (schedules_handle h d now) w = schedule_handle D h d now w
  perform (calls_soon f a c ctx cell) w = (call_soon D f a c ctx cell w).1
  perform (calls_soon_threadsafe f a c cell) w = (call_soon_threadsafe D f a c cell w).1
  perform (calls_later d f a c cell now) w = (call_later D d f a c cell now w).1

  -- The counter is the length of the ready queue, as a 64-bit number, and the timers are in order.
  pub record IsCounted (w : World D) : Type 0 where
    pub counted : w.counter_ready ≡ length w.handles_ready % 2 ^ 64
    pub ordered : IsOrdered w.handles_sched

  push_ready-IsCounted : (h : Handle) (w : World D) → IsCounted w → IsCounted (push_ready D h w)
  unfolding push_ready
  push_ready-IsCounted h w v = record {
    counted = omega (arith, v.counted, length-append w.handles_ready (h ∷ []));
    ordered = v.ordered;
  }

  push_timer-IsCounted :
      (h : Handle) (when : ℕ) (w : World D) → IsCounted w → IsCounted (push_timer D h when w)
  unfolding push_timer
  push_timer-IsCounted h when w v = record {
    counted = v.counted;
    ordered = (heap_push_keeps (record { handle = h; when = when }) w.handles_sched v.ordered).0;
  }

  wake-IsCounted : (w : World D) → IsCounted w → IsCounted (wake D w)
  unfolding wake
  wake-IsCounted w v = record { counted = v.counted; ordered = v.ordered }

  new_cell-IsCounted : (cell : ℕ) (w : World D) → IsCounted w → IsCounted (new_cell D cell w)
  new_cell-IsCounted cell w v = record { counted = v.counted; ordered = v.ordered }

  ruleset counted_rules =
      (push_ready-IsCounted, push_timer-IsCounted, wake-IsCounted, new_cell-IsCounted)

  -- Every scheduling call keeps the counter equal to the length of the ready queue and the timers in
  -- order.
  pub perform-IsCounted : (c : Call) (w : World D) → IsCounted w → IsCounted (perform c w)
  unfolding perform
  perform-IsCounted (schedules0 f c cell) w v = search counted_rules
  perform-IsCounted (schedules1 f a c cell) w v = search counted_rules
  perform-IsCounted (schedules f a c cell) w v = search counted_rules
  perform-IsCounted (schedules_later0 d f c cell now) w v = search counted_rules
  perform-IsCounted (schedules_later1 d f a c cell now) w v = search counted_rules
  perform-IsCounted (schedules_later d f a c cell now) w v = search counted_rules
  perform-IsCounted (schedules_handle h (some d) now) w v = search counted_rules
  perform-IsCounted (schedules_handle h none now) w v = search counted_rules
  perform-IsCounted (calls_soon f a c ctx cell) w v = search counted_rules
  perform-IsCounted (calls_soon_threadsafe f a c cell) w v = search counted_rules
  perform-IsCounted (calls_later d f a c cell now) w v = search counted_rules
