-- ===== src/Tokio/Run.antt =====
-- `_run` of src/tokio_event_loop.rs: the task that selects between the scheduler's channel, the timers,
-- the signals and the handles to run. Which branch of a `select!` completes is an input, with the
-- readings of the clock that it makes; so is what each callback into Python does.
pub mod Count
pub mod Rules
pub mod Account
pub mod Line
pub mod Order
pub mod Stop
pub mod Halted
pub mod Ends
pub mod Timers
pub mod Queue
pub mod Interrupt
use tokioloop.Base.{
  ℕ, ◌==◌, ltb, leb, Bool, true, false, ◌||◌, not, if◌then◌else◌, Option, none, some, List, [], ◌∷◌,
  ◌++◌, ◌≡◌,
}
use tokioloop.Deps.{TokioDeps}
use tokioloop.Tokio.Handle.{
  THandle, TokioTimer, PyCall, call_exc_handler, cancelled, call_of, heap_push,
}
use tokioloop.Tokio.Loop.{
  TokioLoop, ScheduledTask, immediate, delayed, call_soon, call_soon_threadsafe, call_later,
  schedule_handle, stop, cancel, set_stopping, set_closed, set_exc_handler, set_exception_handler,
}
use tokioloop.Tokio.Watch.{add_reader, add_writer, remove_reader, remove_writer}
use tokioloop.Tokio.Signals.{SocketAnswer, read_round, ssock_del}

-- What a callback, or another thread, does to the loop.
pub data Op : Type 0 where
  calls_soon : ℕ → ℕ → Option ℕ → ℕ → ℕ → ℕ → Op
  calls_soon_threadsafe : ℕ → ℕ → Option ℕ → ℕ → ℕ → ℕ → Op
  calls_later : ℕ → ℕ → ℕ → ℕ → ℕ → ℕ → ℕ → Op
  schedules : THandle → Option ℕ → ℕ → Op
  adds_reader : ℕ → ℕ → ℕ → Option ℕ → ℕ → ℕ → ℕ → ℕ → Op
  adds_writer : ℕ → ℕ → ℕ → Option ℕ → ℕ → ℕ → ℕ → ℕ → Op
  removes_reader : ℕ → Op
  removes_writer : ℕ → Op
  cancels : ℕ → Op
  stops : Op
  sets_stopping : Bool → Op
  sets_closed : Bool → Op
  sets_exc_handler : ℕ → Op
  sets_exception_handler : ℕ → Op
  -- A round of the task that reads the signal socket.
  reads_signals : SocketAnswer → Op
  ignores_signals : Op

-- The branch of the `select!` that completes: `scheduler_rx.recv()`, the timers with the clock at the
-- peek and at the expiry, a sleep of either of the two branches that sleep, `signal_socket_rx.recv()`,
-- `current_handles_rx.recv()`.
pub data Branch : Type 0 where
  received : Branch
  timers : ℕ → ℕ → Branch
  slept : Branch
  signalled : Branch
  handled : Branch

-- The task's own state. `settled` lists the handles that were taken to run, the oldest first, and
-- whether they did run; `expired` those that were cancelled when their time came. They are no
-- variables of the code.
pub record Running (T : TokioDeps) : Type 0 where
  pub loop : TokioLoop T
  pub delayed_tasks : List TokioTimer
  pub current_handles : T.mpsc.Chan THandle
  pub settled : List (THandle × Bool)
  pub expired : List THandle

-- A branch is not ready, the loop goes on, or it breaks.
pub data Outcome (T : TokioDeps) : Type 0 where
  waits : Outcome T
  goes_on : Running T → Outcome T
  leaves : Running T → Outcome T

module _ (T : TokioDeps) where
  unfoldable pub perform : Op → TokioLoop T → TokioLoop T
  unfolding call_soon call_soon_threadsafe call_later schedule_handle add_reader add_writer
      remove_reader remove_writer cancel stop set_stopping set_closed set_exc_handler
      set_exception_handler read_round ssock_del
  perform (calls_soon callback args context ctx cell now) l =
      (call_soon T callback args context ctx cell now l).1
  perform (calls_soon_threadsafe callback args context ctx cell now) l =
      (call_soon_threadsafe T callback args context ctx cell now l).1
  perform (calls_later delay callback args context cell now now') l =
      (call_later T delay callback args context cell now now' l).1
  perform (schedules handle delay now) l = (schedule_handle T handle delay now l).1
  perform (adds_reader fd callback args context ctx cell cell' now) l =
      (add_reader T fd callback args context ctx cell cell' now l).1
  perform (adds_writer fd callback args context ctx cell cell' now) l =
      (add_writer T fd callback args context ctx cell cell' now l).1
  perform (removes_reader fd) l = (remove_reader T fd l).1
  perform (removes_writer fd) l = (remove_writer T fd l).1
  perform (cancels cell) l = cancel T cell l
  perform stops l = stop T l
  perform (sets_stopping b) l = set_stopping T b l
  perform (sets_closed b) l = set_closed T b l
  perform (sets_exc_handler handler) l = set_exc_handler T handler l
  perform (sets_exception_handler handler) l = set_exception_handler T handler l
  perform (reads_signals a) l = (read_round T a l).1
  perform ignores_signals l = ssock_del T l

  unfoldable pub perform_all : List Op → TokioLoop T → TokioLoop T
  perform_all [] l = l
  perform_all (op ∷ ops) l = perform_all ops (perform op l)

  -- What Python does in a call, and whether it raises an exception.
  abbrev pub Python : Type 0
  Python = PyCall → TokioLoop T → List Op × Bool

  unfoldable pub call_python : Python → PyCall → TokioLoop T → Bool × TokioLoop T
  unfolding perform_all
  call_python python c l =
      let (ops, raised) = python c l in
      (raised, perform_all ops (record l { called = l.called ++ (c ∷ []) }))

  -- `THandle::run`: an exception goes to the handler that the loop has then, whose own is ignored.
  unfoldable pub run : Python → THandle → TokioLoop T → TokioLoop T
  unfolding call_python
  run python h l =
      let (raised, l1) = call_python python (call_of h) l in
      let logged = call_python python (call_exc_handler l1.exc_handler l1.exception_handler) l1 in
      if raised then logged.1 else l1

  -- The task when it starts.
  unfoldable pub start : TokioLoop T → Running T
  start l = record {
    loop = l;
    delayed_tasks = [];
    current_handles = T.mpsc.unbounded;
    settled = [];
    expired = [];
  }

  unfoldable pub receive : Option ScheduledTask → Running T → Outcome T
  receive (some (immediate handle)) s =
      goes_on (record s { current_handles = (T.mpsc.send handle s.current_handles).1 })
  receive (some (delayed timer)) s =
      goes_on (record s { delayed_tasks = heap_push timer s.delayed_tasks })
  receive none s = if T.async_channel.is_closed s.loop.scheduler then leaves s else waits

  -- The loop over the timers that are due.
  unfoldable pub expire : ℕ → List TokioTimer → Running T → Running T
  expire now [] s = record s { delayed_tasks = [] }
  expire now (t ∷ ts) s =
      let rest = expire now ts (
        if cancelled s.loop.flags t.handle
        then record s { expired = s.expired ++ (t.handle ∷ []) }
        else record s { current_handles = (T.mpsc.send t.handle s.current_handles).1 }) in
      if leb t.when now then rest else record s { delayed_tasks = t ∷ ts }

  -- The first timer decides at the first reading; while it is to come the branch sleeps.
  unfoldable pub run_timers : ℕ → ℕ → List TokioTimer → Running T → Outcome T
  unfolding expire
  run_timers current now [] s = waits
  run_timers current now (t ∷ ts) s =
      let fired = goes_on (expire now (t ∷ ts) s) in if ltb current t.when then waits else fired

  -- SIGINT and SIGTERM stop the loop.
  unfoldable pub take_signal : ℕ → TokioLoop T → TokioLoop T
  take_signal sig l = if sig == 2 || sig == 15 then record l { stopping = true } else l

  unfoldable pub receive_signal : Option ℕ → Running T → Outcome T
  unfolding take_signal
  receive_signal (some sig) s =
      let s1 = record s { loop = take_signal sig s.loop } in
      if not s.loop.sig_listening then leaves s1 else goes_on s1
  receive_signal none s = if T.async_channel.is_closed s.loop.signal_socket then leaves s else waits

  unfoldable pub run_handle : Python → Option THandle → Running T → Outcome T
  unfolding run
  run_handle python (some handle) s =
      let dropped = cancelled s.loop.flags handle in
      let ran = run python handle s.loop in
      goes_on (record s {
        loop = if dropped then s.loop else ran;
        settled = s.settled ++ ((handle, not dropped) ∷ []);
      })
  run_handle python none s = if T.mpsc.is_closed s.current_handles then leaves s else waits

  unfoldable pub select : Python → Branch → Running T → Outcome T
  unfolding receive run_timers receive_signal run_handle
  select python received s =
      let (task, rest) = T.async_channel.recv s.loop.scheduler in
      receive task (record s { loop = record s.loop { scheduler = rest } })
  select python (timers current now) s = run_timers current now s.delayed_tasks s
  select python slept s = goes_on s
  select python signalled s =
      let (sig, rest) = T.async_channel.recv s.loop.signal_socket in
      receive_signal sig (record s { loop = record s.loop { signal_socket = rest } })
  select python handled s =
      let (handle, rest) = T.mpsc.recv s.current_handles in
      run_handle python handle (record s { current_handles = rest })

  -- The stop condition after the `select!`.
  abbrev pub check_stop : Outcome T → Outcome T
  check_stop (goes_on s) = if s.loop.stopping then leaves s else goes_on s
  check_stop o = o

  unfoldable pub turn : Python → Branch → Running T → Outcome T
  unfolding select
  turn python branch s = check_stop (select python branch s)

  -- What a step of the task leaves, if it takes place.
  abbrev pub After : Outcome T → (Running T → Type 0) → Type 0
  After waits P = Unit {0}
  After (goes_on s) P = P s
  After (leaves s) P = P s

  -- What the task and the other threads make of a state, in any order, while the task goes on.
  pub data Reaches (python : Python) (s : Running T) : Running T → Type 0 where
    here : Reaches python s s
    turns :
        {t : Running T} (branch : Branch) (u : Running T)
        → Reaches python s t
        → turn python branch t ≡ goes_on u
        → Reaches python s u
    others :
        {t : Running T} (op : Op)
        → Reaches python s t
        → Reaches python s (record t { loop = perform op t.loop })
