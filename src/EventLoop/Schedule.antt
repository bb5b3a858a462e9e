-- ===== src/EventLoop/Schedule.antt =====
-- The ready queue and the scheduling calls of src/event_loop.rs. A call that makes a callback handle is
-- given its new flag `cell`, and the clock `now` in microseconds where it reads it. The locks are
-- never poisoned, so the `Result` is always `Ok`.
pub mod Counter
pub mod Added
use tokioloop.Base.{ℕ, ◌+◌, ◌%◌, ◌^◌, Option, none, some, List, [], ◌∷◌, ◌++◌}
use tokioloop.Handle.{Handle, cb_handle, cb_handle_no_args, cb_handle_one_arg, Timer}
use tokioloop.Deps.{Deps}
use tokioloop.World.{World, new_cell, wake}
use tokioloop.EventLoop.Timers.{heap_push}

-- `Option::unwrap_or_else`
abbrev pub or_else : Option ℕ → ℕ → ℕ
or_else none d = d
or_else (some x) d = x

module _ (D : Deps) where
  -- `push_back` under the lock, then `counter_ready.fetch_add(1)`.
  unfoldable pub push_ready : Handle → World D → World D
  push_ready h w = record w {
    handles_ready = w.handles_ready ++ (h ∷ []);
    counter_ready = (w.counter_ready + 1) % 2 ^ 64;
  }

  -- `push` on the heap under its lock.
  unfoldable pub push_timer : Handle → ℕ → World D → World D
  push_timer h when w = record w {
    handles_sched = heap_push (record { handle = h; when = when }) w.handles_sched;
  }

  unfoldable pub schedule0 : ℕ → Option ℕ → ℕ → World D → World D
  unfolding wake
  schedule0 callback context cell w = wake D (
      push_ready (cb_handle_no_args callback (or_else context w.base_ctx) cell) (new_cell D cell w))

  unfoldable pub schedule1 : ℕ → ℕ → Option ℕ → ℕ → World D → World D
  unfolding wake
  schedule1 callback arg context cell w = wake D (
      push_ready (cb_handle_one_arg callback arg (or_else context w.base_ctx) cell)
        (new_cell D cell w))

  -- Its handle is `CBHandle::new1`, so the tuple is passed as one argument.
  unfoldable pub schedule : ℕ → ℕ → Option ℕ → ℕ → World D → World D
  unfolding wake
  schedule callback args context cell w = wake D (
      push_ready (cb_handle_one_arg callback args (or_else context w.base_ctx) cell)
        (new_cell D cell w))

  unfoldable pub schedule_later0 : ℕ → ℕ → Option ℕ → ℕ → ℕ → World D → World D
  unfolding wake
  schedule_later0 delay callback context cell now w = wake D (
      push_timer (cb_handle_no_args callback (or_else context w.base_ctx) cell) (now + delay)
        (new_cell D cell w))

  unfoldable pub schedule_later1 : ℕ → ℕ → ℕ → Option ℕ → ℕ → ℕ → World D → World D
  unfolding wake
  schedule_later1 delay callback arg context cell now w = wake D (
      push_timer (cb_handle_one_arg callback arg (or_else context w.base_ctx) cell) (now + delay)
        (new_cell D cell w))

  unfoldable pub schedule_later : ℕ → ℕ → ℕ → Option ℕ → ℕ → ℕ → World D → World D
  unfolding wake
  schedule_later delay callback args context cell now w = wake D (
      push_timer (cb_handle callback args (or_else context w.base_ctx) cell) (now + delay)
        (new_cell D cell w))

  unfoldable pub schedule_handle : Handle → Option ℕ → ℕ → World D → World D
  unfolding wake
  schedule_handle handle (some delay) now w = wake D (push_timer handle (now + delay) w)
  schedule_handle handle none now w = wake D (push_ready handle w)

  -- `ctx` is the copy of the current context. It does not wake the loop.
  unfoldable pub call_soon : ℕ → ℕ → Option ℕ → ℕ → ℕ → World D → Handle × World D
  call_soon callback args context ctx cell w =
      let handle = cb_handle callback args (or_else context ctx) cell in
      (handle, push_ready handle (new_cell D cell w))

  unfoldable pub call_soon_threadsafe : ℕ → ℕ → Option ℕ → ℕ → World D → Handle × World D
  unfolding wake
  call_soon_threadsafe callback args context cell w =
      let handle = cb_handle callback args (or_else context w.base_ctx) cell in
      (handle, wake D (push_ready handle (new_cell D cell w)))

  -- The `TimerHandle` is the callback handle and its time. It does not wake the loop.
  unfoldable pub call_later : ℕ → ℕ → ℕ → ℕ → ℕ → ℕ → World D → (Handle × ℕ) × World D
  call_later delay callback args context cell now w =
      let handle = cb_handle callback args context cell in
      ((handle, now + delay), push_timer handle (now + delay) (new_cell D cell w))
