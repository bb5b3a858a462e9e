-- ===== src/EventLoop/Step.antt =====
-- One iteration of the loop and the loop itself: handle_io_py, handle_io_tcps, handle_io_udp, step and
-- _run of src/event_loop.rs. `run` stands for `Handle::run`, with the callbacks into Python that it
-- makes; clock readings, poll results and events are inputs.
pub mod Handled
pub mod Served
pub mod Fairness
pub mod Cancel
pub mod Run
use tokioloop.Base.{
  ℕ, ◌*◌, ◌/◌, ◌≤◌, ◌<◌, ◌+◌, ◌-◌, ◌%◌, ◌^◌, ◌==◌, ==_refl, ltb, leb, if◌then◌else◌, Bool, false,
  true, ◌&&◌, ◌||◌, not, Option, none, some, List, [], ◌∷◌, ◌++◌, length, ◌≡◌, ◌≢◌, ◌⊎◌, refl, ap,
  arith, Bool-cases, Option-cases, inl, inr,
}
use tokioloop.Deps.{
  Deps, Interest, readable, writable, both, is_readable, is_writable, same_interest, reads, writes,
  RegistryCall, register, reregister, deregister, Removal, absent, removed, kept,
}
use tokioloop.Handle.{
  Handle, cb_handle, cb_handle_one_arg, no_op_handle, tcp_read_handle, tcp_write_handle,
  udp_read_handle, udp_write_handle, cancelled, Timer,
}
use tokioloop.World.{
  World, TcpTransport, UdpTransport, TcpServerRef, PyHandleData, IoHandle, py, signals,
  tcp_listener, tcp_stream, udp_socket, Fault, Effect, connection_made, connection_lost,
  pause_writing, resume_writing, data_received, eof_received, sent, tls_written, shutdown_write,
  Returns, wake, Result, ok, panic, starved, unwrap_none, unreachable_code, already_borrowed,
  slice_range, new_cell, set_tcp, set_udp, emit, store, ◌>>=◌,
}
use tokioloop.EventLoop.Timers.{drain_due, poll_plan}
use tokioloop.EventLoop.Signals.{ReadResult, handle_io_signals}
use tokioloop.Tcp.New.{Accepted, handle_io_tcpl}

-- An event of the poll, with what its handler will read: the streams that the listener accepts and
-- the answers of the signal socket.
pub record Event : Type 0 where
  pub token : ℕ
  pub is_readable : Bool
  pub is_writable : Bool
  pub accepted : List Accepted
  pub answers : List ReadResult

pub data PollResult : Type 0 where
  polled interrupted failed : PollResult

-- The clock at the plan, the poll's result and events, and the clock after it and at the timers.
pub record StepInput : Type 0 where
  pub tick : ℕ
  pub poll_result : PollResult
  pub events : List Event
  pub tick_polled : ℕ
  pub tick_timers : ℕ

abbrev pub push_if : Bool → Option Handle → List Handle → List Handle
push_if true (some h) hs = hs ++ (h ∷ [])
push_if true none hs = hs
push_if false h hs = hs

unfoldable pub handle_io_py : Event → PyHandleData → List Handle → List Handle
handle_io_py e d hs = push_if e.is_writable d.cbw (push_if e.is_readable d.cbr hs)

unfoldable pub handle_io_tcps : Event → List Handle → List Handle
handle_io_tcps e hs =
    if e.is_readable
    then hs ++ (tcp_read_handle e.token ∷ [])
    else if e.is_writable
    then hs ++ (tcp_write_handle e.token ∷ [])
    else hs

unfoldable pub handle_io_udp : Event → List Handle → List Handle
handle_io_udp e hs =
    if e.is_readable
    then hs ++ (udp_read_handle e.token ∷ [])
    else if e.is_writable
    then hs ++ (udp_write_handle e.token ∷ [])
    else hs

-- What an iteration leaves: the world, the handles that it ran, the poll's result and the time of the
-- last poll.
pub record Stepped (D : Deps) : Type 0 where
  pub world : World D
  pub ran : List Handle
  pub poll_result : PollResult
  pub tick_last : ℕ

module _ (D : Deps) where
  open D use {get}

  -- An event of a token that has no entry is passed over.
  unfoldable pub handle_event :
      Event → Option IoHandle → World D → List Handle → Result (World D × List Handle)
  unfolding handle_io_py handle_io_tcps handle_io_udp
  handle_event e none w hs = ok (w, hs)
  handle_event e (some (py d)) w hs = ok (w, handle_io_py e d hs)
  handle_event e (some (tcp_listener server)) w hs = handle_io_tcpl D server e.accepted w hs
  handle_event e (some (tcp_stream _)) w hs = ok (w, handle_io_tcps e hs)
  handle_event e (some (udp_socket _)) w hs = ok (w, handle_io_udp e hs)
  handle_event e (some signals) w hs = handle_io_signals D e.answers w hs

  unfoldable pub handle_events : List Event → World D → List Handle → Result (World D × List Handle)
  unfolding handle_event
  handle_events [] w hs = ok (w, hs)
  handle_events (e ∷ es) w hs =
      handle_event e (get e.token w.handles_io) w hs >>= λ next. handle_events es next.0 next.1

  -- `mem::replace` of the queue, and `fetch_sub` of its length, which wraps.
  unfoldable pub take_ready : World D → List Handle × World D
  take_ready w = (
    w.handles_ready,
    record w {
      handles_ready = [];
      counter_ready = (w.counter_ready + 2 ^ 64 - length w.handles_ready % 2 ^ 64) % 2 ^ 64;
    },
  )

  -- The loop over the callbacks: a handle that is cancelled when its turn comes is dropped. The list is
  -- of those that ran.
  unfoldable pub run_all :
      (Handle → World D → World D) → List Handle → World D → World D × List Handle
  run_all run [] w = (w, [])
  run_all run (h ∷ hs) w =
      let dropped = cancelled w.flags h in
      let rest = run_all run hs (if dropped then w else run h w) in
      (rest.0, if dropped then rest.1 else h ∷ rest.1)

  -- While the loop polls, it is idle, unless work is ready; then it is not.
  idle_after : Option ℕ → Bool → Bool
  idle_after none idle = false
  idle_after (some timeout) idle = if timeout == 0 then idle else false

  -- The timers and the callbacks of `step`.
  unfoldable pub finish_step :
      (Handle → World D → World D) → ℕ → List Handle → World D → World D × List Handle
  unfolding drain_due run_all
  finish_step run tick_timers hs w =
      let due = drain_due tick_timers w.handles_sched in
      run_all run (hs ++ due.0) (record w { handles_sched = due.1 })

  -- Whether the poll is skipped, and then no event is seen.
  unfoldable pub skips_poll : StepInput → ℕ → World D → Bool
  unfolding poll_plan
  skips_poll input tick_last w = (poll_plan w.counter_ready input.tick tick_last w.handles_sched).1

  abbrev pub seen : StepInput → Bool → List Event
  seen input true = []
  seen input false = input.events

  -- The world after the poll and `take_ready`.
  unfoldable pub begin_step : StepInput → ℕ → World D → World D
  unfolding poll_plan take_ready idle_after skips_poll
  begin_step input tick_last w =
      let timeout = (poll_plan w.counter_ready input.tick tick_last w.handles_sched).0 in
      let idle = if skips_poll input tick_last w then w.idle else idle_after timeout w.idle in
      (take_ready (record w { idle = idle })).1

  unfoldable pub end_step :
      (Handle → World D → World D) → StepInput → ℕ → Bool → World D × List Handle → Stepped D
  unfolding finish_step
  end_step run input tick_last skipped handled =
      let done = finish_step run input.tick_timers handled.1 handled.0 in
      record {
        world = done.0;
        ran = done.1;
        poll_result = if skipped then polled else input.poll_result;
        tick_last = if skipped then tick_last else input.tick_polled;
      }

  unfoldable pub step : (Handle → World D → World D) → StepInput → ℕ → World D → Result (Stepped D)
  unfolding handle_events begin_step end_step skips_poll
  step run input tick_last w =
      let skipped = skips_poll input tick_last w in
      handle_events (seen input skipped) (begin_step input tick_last w) w.handles_ready
      >>= λ handled. ok (end_step run input tick_last skipped handled)
