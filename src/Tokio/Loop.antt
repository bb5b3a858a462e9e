-- ===== src/Tokio/Loop.antt =====
-- The state of `TEventLoop` of src/tokio_event_loop.rs and its operations. `counter_ready` and
-- `sig_handlers` are read nowhere and are left out. A call that makes a handle is given its new flag
-- `cell`, and the clock in microseconds where it reads it.
use tokioloop.Base.{
  ℕ, ◌+◌, Bool, true, false, ◌||◌, if◌then◌else◌, Option, none, some, List, [], ◌∷◌, ◌++◌,
}
use tokioloop.Deps.{TokioDeps}
use tokioloop.World.{store}
use tokioloop.Tokio.Handle.{
  THandle, tcb_handle, tcb_handle_no_args, tcb_handle_one_arg, TokioTimer, PyCall,
}

pub data ScheduledTask : Type 0 where
  immediate : THandle → ScheduledTask
  delayed : TokioTimer → ScheduledTask

abbrev pub handle_of : ScheduledTask → THandle
handle_of (immediate h) = h
handle_of (delayed t) = t.handle

-- `Option::unwrap_or_else`
abbrev pub or_else : Option ℕ → ℕ → ℕ
or_else none d = d
or_else (some x) d = x

-- An entry of `io_callbacks`: the reader, the writer and the context.
abbrev pub Callbacks : Type 0
Callbacks = Option THandle × Option THandle × ℕ

-- `accepted` lists the handles that the scheduler's channel has taken, and `called` the calls into
-- Python, the oldest first. They are no fields of the code.
pub record TokioLoop (T : TokioDeps) : Type 0 where
  pub runtime : Bool
  pub scheduler : T.async_channel.Chan ScheduledTask
  pub signal_socket : T.async_channel.Chan ℕ
  pub closed : Bool
  pub stopping : Bool
  pub exc_handler : ℕ
  pub exception_handler : ℕ
  pub base_ctx : ℕ
  pub sig_listening : Bool
  pub io_callbacks : T.Map Callbacks
  pub flags : ℕ → Bool
  pub accepted : List THandle
  pub called : List PyCall

module _ (T : TokioDeps) where
  open T use {empty, get, insert, remove}

  abbrev pub new_cell : ℕ → TokioLoop T → TokioLoop T
  new_cell cell l = record l { flags = store l.flags cell false }

  -- `none` is Python's None, and the flags are those of the handles that there are.
  unfoldable pub new : ℕ → ℕ → (ℕ → Bool) → TokioLoop T
  new py_none context flags = record {
    runtime = false;
    scheduler = T.async_channel.unbounded;
    signal_socket = T.async_channel.unbounded;
    closed = false;
    stopping = false;
    exc_handler = py_none;
    exception_handler = py_none;
    base_ctx = context;
    sig_listening = false;
    io_callbacks = empty;
    flags = flags;
    accepted = [];
    called = [];
  }

  -- The answer is whether it succeeds: `built` says whether the runtime is built.
  unfoldable pub initialize_runtime : Bool → TokioLoop T → Bool × TokioLoop T
  initialize_runtime built l =
      if built
      then (if l.runtime then (false, l) else (true, record l { runtime = true }))
      else (false, l)

  abbrev pub task_of : THandle → Option ℕ → ℕ → ScheduledTask
  task_of handle none now = immediate handle
  task_of handle (some delay) now = delayed (record { handle = handle; when = now + delay })

  -- What is left when the channel has answered.
  abbrev pub note_sent : THandle → Bool → TokioLoop T → TokioLoop T
  note_sent handle sent l = record l {
    accepted = if sent then l.accepted ++ (handle ∷ []) else l.accepted;
  }

  -- The answer is whether it is `Ok`. A loop that is stopping or closed drops the handle.
  unfoldable pub schedule_handle : THandle → Option ℕ → ℕ → TokioLoop T → Bool × TokioLoop T
  schedule_handle handle delay now l =
      let tried = T.async_channel.send (task_of handle delay now) l.scheduler in
      if l.stopping || l.closed
      then (true, l)
      else (tried.0, note_sent handle tried.0 (record l { scheduler = tried.1 }))

  unfoldable pub schedule0 : ℕ → Option ℕ → ℕ → ℕ → TokioLoop T → Bool × TokioLoop T
  unfolding schedule_handle
  schedule0 callback context cell now l =
      schedule_handle (tcb_handle_no_args callback (or_else context l.base_ctx) cell) none now
        (new_cell cell l)

  unfoldable pub schedule1 : ℕ → ℕ → Option ℕ → ℕ → ℕ → TokioLoop T → Bool × TokioLoop T
  unfolding schedule_handle
  schedule1 callback arg context cell now l =
      schedule_handle (tcb_handle_one_arg callback arg (or_else context l.base_ctx) cell) none now
        (new_cell cell l)

  unfoldable pub schedule : ℕ → ℕ → Option ℕ → ℕ → ℕ → TokioLoop T → Bool × TokioLoop T
  unfolding schedule_handle
  schedule callback args context cell now l =
      schedule_handle (tcb_handle callback args (or_else context l.base_ctx) cell) none now
        (new_cell cell l)

  unfoldable pub schedule_later0 : ℕ → ℕ → Option ℕ → ℕ → ℕ → TokioLoop T → Bool × TokioLoop T
  unfolding schedule_handle
  schedule_later0 delay callback context cell now l =
      schedule_handle (tcb_handle_no_args callback (or_else context l.base_ctx) cell) (some delay)
        now (new_cell cell l)

  unfoldable pub schedule_later1 : ℕ → ℕ → ℕ → Option ℕ → ℕ → ℕ → TokioLoop T → Bool × TokioLoop T
  unfolding schedule_handle
  schedule_later1 delay callback arg context cell now l =
      schedule_handle (tcb_handle_one_arg callback arg (or_else context l.base_ctx) cell)
        (some delay) now (new_cell cell l)

  unfoldable pub schedule_later : ℕ → ℕ → ℕ → Option ℕ → ℕ → ℕ → TokioLoop T → Bool × TokioLoop T
  unfolding schedule_handle
  schedule_later delay callback args context cell now l =
      schedule_handle (tcb_handle callback args (or_else context l.base_ctx) cell) (some delay) now
        (new_cell cell l)

  -- The handle, if the scheduling is `Ok`.
  abbrev pub answer {ℓ} : {A : Type ℓ} → A → Bool × TokioLoop T → Option A × TokioLoop T
  answer a (sent, l) = (if sent then some a else none, l)

  -- `ctx` is the copy of the current context.
  unfoldable pub call_soon :
      ℕ → ℕ → Option ℕ → ℕ → ℕ → ℕ → TokioLoop T → Option THandle × TokioLoop T
  unfolding schedule_handle
  call_soon callback args context ctx cell now l =
      let handle = tcb_handle callback args (or_else context ctx) cell in
      answer handle (schedule_handle handle none now (new_cell cell l))

  unfoldable pub call_soon_threadsafe :
      ℕ → ℕ → Option ℕ → ℕ → ℕ → ℕ → TokioLoop T → Option THandle × TokioLoop T
  unfolding schedule_handle
  call_soon_threadsafe callback args context ctx cell now l =
      let handle = tcb_handle callback args (or_else context ctx) cell in
      answer handle (schedule_handle handle none now (new_cell cell l))

  -- The `TTimerHandle` is the handle and its time, by a first reading of the clock; the timer has a second.
  unfoldable pub call_later :
      ℕ → ℕ → ℕ → ℕ → ℕ → ℕ → ℕ → TokioLoop T → Option (THandle × ℕ) × TokioLoop T
  unfolding schedule_handle
  call_later delay callback args context cell now now' l =
      let handle = tcb_handle callback args context cell in
      answer (handle, now + delay) (schedule_handle handle (some delay) now' (new_cell cell l))

  unfoldable pub stop : TokioLoop T → TokioLoop T
  stop l = record l { stopping = true }

  -- `cancel` of a handle, and of a `TTimerHandle` by its handle.
  unfoldable pub cancel : ℕ → TokioLoop T → TokioLoop T
  cancel cell l = record l { flags = store l.flags cell true }

  -- The setters.
  unfoldable pub set_closed : Bool → TokioLoop T → TokioLoop T
  set_closed val l = record l { closed = val }

  unfoldable pub set_stopping : Bool → TokioLoop T → TokioLoop T
  set_stopping val l = record l { stopping = val }

  unfoldable pub set_exc_handler : ℕ → TokioLoop T → TokioLoop T
  set_exc_handler val l = record l { exc_handler = val }

  unfoldable pub set_exception_handler : ℕ → TokioLoop T → TokioLoop T
  set_exception_handler val l = record l { exception_handler = val }
