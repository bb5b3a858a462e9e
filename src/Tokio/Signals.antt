-- ===== src/Tokio/Signals.antt =====
-- Signals of src/tokio_event_loop.rs: the task that _ssock_set spawns, _ssock_del, and the operations
-- that are not implemented. What the system and Python answer is an input.
use tokioloop.Base.{ℕ, ◌&&◌, Bool, true, false, not, if◌then◌else◌, List, [], ◌∷◌}
use tokioloop.Deps.{TokioDeps}
use tokioloop.World.{Result, ok, panic, unwrap_none}
use tokioloop.Tokio.Loop.{TokioLoop}

-- What `check_signals` answers: `Ok`, an error that is neither a KeyboardInterrupt nor a SystemExit, or
-- one of those.
pub data Checked : Type 0 where
  fine minor critical : Checked

-- What the socket answers: `readable` fails, or it succeeds and `try_read` gives bytes, with what
-- `check_signals` answers then, or an error.
pub data SocketAnswer : Type 0 where
  not_ready would_block read_failed : SocketAnswer
  got : List ℕ → Checked → SocketAnswer

-- Whether the task goes on.
pub data Progress : Type 0 where
  reading returned : Progress

-- The answers of `dup` and of `UnixStream::from_std`, for both ends.
pub record Setup : Type 0 where
  pub dup_r : Bool
  pub dup_w : Bool
  pub socket_r : Bool
  pub socket_w : Bool

module _ (T : TokioDeps) where
  -- `send` of each byte; the first that fails ends the task.
  unfoldable pub send_signals : List ℕ → TokioLoop T → Progress × TokioLoop T
  send_signals [] l = (reading, l)
  send_signals (b ∷ bs) l =
      let sent = T.async_channel.send b l.signal_socket in
      let l1 = record l { signal_socket = sent.1 } in
      let rest = send_signals bs l1 in if sent.0 then rest else (returned, l1)

  abbrev pub check : Checked → TokioLoop T → TokioLoop T
  check critical l = record l { stopping = true }
  check _ l = l

  unfoldable pub take_answer : SocketAnswer → TokioLoop T → Progress × TokioLoop T
  unfolding send_signals
  take_answer (got [] checked) l = (returned, l)
  take_answer (got (b ∷ bs) checked) l = send_signals (b ∷ bs) (check checked l)
  take_answer _ l = (reading, l)

  -- One round of the task's loop.
  unfoldable pub read_round : SocketAnswer → TokioLoop T → Progress × TokioLoop T
  unfolding take_answer
  read_round not_ready l = (reading, l)
  read_round a l = if not l.sig_listening then (returned, l) else take_answer a l

  -- The task's loop over the answers, until it returns or they end.
  unfoldable pub read_signals : List SocketAnswer → TokioLoop T → Progress × TokioLoop T
  unfolding read_round
  read_signals [] l = (reading, l)
  read_signals (a ∷ as_) l =
      let (p, l1) = read_round a l in
      let rest = read_signals as_ l1 in elim p [ reading ↦ rest | returned ↦ (returned, l1) ]

  -- The task up to its loop: whether it gets there.
  unfoldable pub start_task : Setup → TokioLoop T → Bool × TokioLoop T
  start_task s l =
      if s.dup_r && s.dup_w && s.socket_r && s.socket_w
      then (true, record l { sig_listening = true })
      else (false, l)

  -- `get_runtime` panics where there is no runtime.
  unfoldable pub ssock_set : Setup → TokioLoop T → Result (Bool × TokioLoop T)
  unfolding start_task
  ssock_set s l = if l.runtime then ok (start_task s l) else panic unwrap_none

  unfoldable pub ssock_del : TokioLoop T → TokioLoop T
  ssock_del l = record l { sig_listening = false }

  -- `_sig_add` and `_sig_rem` do nothing.
  unfoldable pub sig_add : ℕ → ℕ → ℕ → TokioLoop T → TokioLoop T
  sig_add sig callback args l = l

  unfoldable pub sig_rem : ℕ → TokioLoop T → Bool × TokioLoop T
  sig_rem sig l = (false, l)
