-- ===== src/Tokio/Transport.antt =====
-- `TokioTCPTransport` of src/tokio_tcp.rs: its state, its making and the operations of Python's transport
-- interface. The lock on the state is held for single operations only. The clone of an address is a
-- number; `read_buf` is used nowhere and is left out.
pub mod Agree
use tokioloop.Base.{
  ℕ, ◌==◌, Bool, true, false, ◌&&◌, ◌||◌, not, if◌then◌else◌, Option, none, some, List, [], ◌∷◌,
  ◌++◌,
}

-- The fields of the `TokioTCPTransportState` behind the lock that have the names of a flag of the
-- transport begin with `state_`.
pub record TokioTcpTransport : Type 0 where
  pub fd : ℕ
  pub has_stream : Bool
  pub write_buf : List (List ℕ)
  pub state_closing : Bool
  pub state_weof : Bool
  pub read_eof : Bool
  pub write_shutdown_done : Bool
  pub state_paused : Bool
  pub has_io_task : Bool
  pub local_addr : Option ℕ
  pub peer_addr : Option ℕ
  pub protocol : ℕ
  pub closing : Bool
  pub paused : Bool
  pub weof : Bool
  pub lfd : Option ℕ

-- The fields of a new transport, in `from_py` and in `create_transport_from_stream`.
unfoldable pub fresh_transport : ℕ → Option ℕ → Option ℕ → ℕ → TokioTcpTransport
fresh_transport fd local_addr peer_addr protocol = record {
  fd = fd;
  has_stream = true;
  write_buf = [];
  state_closing = false;
  state_weof = false;
  read_eof = false;
  write_shutdown_done = false;
  state_paused = false;
  has_io_task = false;
  local_addr = local_addr;
  peer_addr = peer_addr;
  protocol = protocol;
  closing = false;
  paused = false;
  weof = false;
  lfd = none;
}

-- What the system and Python answer when a transport is made: whether the socket is converted, its
-- addresses, the protocol that the factory makes, if it makes one, and whether a Python socket is made.
pub record Making : Type 0 where
  pub converted : Bool
  pub local_addr : Option ℕ
  pub peer_addr : Option ℕ
  pub protocol : Option ℕ
  pub socket_made : Bool

-- `from_py`; `none` is an exception. The order of the steps makes no difference to the result.
unfoldable pub from_py : ℕ → Making → Option TokioTcpTransport
unfolding fresh_transport
from_py fd m = elim m.protocol [
  | none ↦ none
  | some protocol ↦
      if m.converted && m.socket_made
      then some (fresh_transport fd m.local_addr m.peer_addr protocol)
      else none
]

-- What Python gets back: nothing, a RuntimeError, or the error of an object that holds no bytes.
pub data Answer : Type 0 where
  done runtime_error type_error : Answer

-- The bytes of the object, if it holds bytes.
unfoldable pub write : Option (List ℕ) → TokioTcpTransport → Answer × TokioTcpTransport
write none t = if t.weof then (runtime_error, t) else (type_error, t)
write (some chunk) t =
    if t.weof
    then (runtime_error, t)
    else (done, record t { write_buf = t.write_buf ++ (chunk ∷ []) })

-- The first error ends it; what was written before stays.
unfoldable pub writelines : List (Option (List ℕ)) → TokioTcpTransport → Answer × TokioTcpTransport
unfolding write
writelines [] t = (done, t)
writelines (item ∷ items) t =
    let (a, t1) = write item t in
    let rest = writelines items t1 in
    elim a [ done ↦ rest | runtime_error ↦ (runtime_error, t1) | type_error ↦ (type_error, t1) ]

unfoldable pub write_eof : TokioTcpTransport → TokioTcpTransport
write_eof t =
    if t.closing then t else if t.weof then t else record t { weof = true; state_weof = true }

unfoldable pub can_write_eof : TokioTcpTransport → Bool
can_write_eof t = not t.weof

unfoldable pub pause_reading : TokioTcpTransport → TokioTcpTransport
pause_reading t =
    if t.closing then t else if t.paused then t else record t { paused = true; state_paused = true }

unfoldable pub resume_reading : TokioTcpTransport → TokioTcpTransport
resume_reading t =
    if t.closing
    then t
    else if t.paused
    then record t { paused = false; state_paused = false }
    else t

unfoldable pub close : TokioTcpTransport → TokioTcpTransport
close t = if t.closing then t else record t { closing = true; state_closing = true }

unfoldable pub abort : TokioTcpTransport → TokioTcpTransport
abort t = if t.closing then t else record t { closing = true; state_closing = true; write_buf = [] }

unfoldable pub is_reading : TokioTcpTransport → Bool
is_reading t = not t.closing && not t.paused

unfoldable pub is_closing : TokioTcpTransport → Bool
is_closing t = t.closing

-- The operations of the transport that a protocol or another thread may call.
pub data TransportOp : Type 0 where
  writes : Option (List ℕ) → TransportOp
  writes_lines : List (Option (List ℕ)) → TransportOp
  writes_eof : TransportOp
  pauses : TransportOp
  resumes : TransportOp
  closes : TransportOp
  aborts : TransportOp

unfoldable pub apply : TransportOp → TokioTcpTransport → TokioTcpTransport
unfolding write writelines write_eof pause_reading resume_reading close abort
apply (writes bytes) t = (write bytes t).1
apply (writes_lines items) t = (writelines items t).1
apply writes_eof t = write_eof t
apply pauses t = pause_reading t
apply resumes t = resume_reading t
apply closes t = close t
apply aborts t = abort t

unfoldable pub apply_all : List TransportOp → TokioTcpTransport → TokioTcpTransport
unfolding apply
apply_all [] t = t
apply_all (op ∷ ops) t = apply_all ops (apply op t)
