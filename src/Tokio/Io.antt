-- ===== src/Tokio/Io.antt =====
-- `io_processing_loop` of src/tokio_tcp.rs. How a `select!` ends is an input, with how far the branch that
-- writes had come: its future is dropped where another branch completes first.
pub mod Told
pub mod Bytes
pub mod Drop
pub mod Written
pub mod Flush
pub mod Hole
pub mod Close
pub mod Finish
use tokioloop.Base.{
  ℕ, ◌==◌, Bool, true, false, ◌&&◌, ◌||◌, not, if◌then◌else◌, Option, none, some, List, [], ◌∷◌,
  ◌++◌, take,
}
use tokioloop.Tokio.Transport.{TokioTcpTransport, TransportOp, apply_all}

-- A call of the protocol.
pub data ProtocolCall : Type 0 where
  connection_made : ProtocolCall
  data_received : List ℕ → ProtocolCall
  eof_received : ProtocolCall
  connection_lost : ProtocolCall

-- What `read` answers: bytes, none at the end of the stream, WouldBlock or another error.
pub data ReadAnswer : Type 0 where
  read_bytes : List ℕ → ReadAnswer
  read_would_block read_error : ReadAnswer

-- How `write_all` and `flush` end: with all written, or with an error after so many bytes.
pub data WriteEnd : Type 0 where
  all_written : WriteEnd
  write_error : ℕ → WriteEnd

-- How far the branch that writes has come when it is dropped: it was not polled; it was in `write_all`,
-- with so many bytes written; it was in `flush`; or it was in `shutdown`.
pub data WriteRun : Type 0 where
  unpolled : WriteRun
  in_write : ℕ → WriteRun
  in_flush : WriteRun
  in_shutdown : WriteEnd → WriteRun

-- The branch that completes: the read, the write or the sleep.
pub data Selected : Type 0 where
  reads : WriteRun → ReadAnswer → Selected
  writes_out : WriteEnd → Selected
  sleeps : WriteRun → Selected

-- `sent` lists the bytes that the socket has taken, `shutdown` whether `shutdown` of the
-- writer was called, and
-- `calls` the calls of the protocol, the oldest first.
pub record Io : Type 0 where
  pub transport : TokioTcpTransport
  pub sent : List ℕ
  pub shutdown : Bool
  pub calls : List ProtocolCall

-- The loop goes on, or breaks.
pub data Turned : Type 0 where
  goes_on : Io → Turned
  breaks : Io → Turned

-- What the protocol calls on the transport when it is called.
abbrev pub Protocol : Type 0
Protocol = ProtocolCall → Io → List TransportOp

unfoldable pub call : Protocol → ProtocolCall → Io → Io
call protocol c io = record io {
  calls = io.calls ++ (c ∷ []);
  transport = apply_all (protocol c io) io.transport;
}

abbrev pub is_nil : List (List ℕ) → Bool
is_nil [] = true
is_nil (_ ∷ _) = false

-- The `if` of the branch that writes.
abbrev pub wants_write : TokioTcpTransport → Bool
wants_write t = not (is_nil t.write_buf) || t.state_weof && not t.write_shutdown_done

-- `pop_front`: the chunk, and the rest.
abbrev pub front : List (List ℕ) → Option (List ℕ)
front [] = none
front (chunk ∷ rest) = some chunk

abbrev pub behind : List (List ℕ) → List (List ℕ)
behind [] = []
behind (chunk ∷ rest) = rest

unfoldable pub pop : Io → Option (List ℕ) × Io
pop io = (
  front io.transport.write_buf,
  record io { transport = record io.transport { write_buf = behind io.transport.write_buf } },
)

-- `should_shutdown`, after the `pop_front`.
abbrev pub should_shutdown : TokioTcpTransport → Bool
should_shutdown t = t.state_weof && is_nil t.write_buf && not t.write_shutdown_done

abbrev pub taken_bytes : WriteEnd → List ℕ → List ℕ
taken_bytes all_written chunk = chunk
taken_bytes (write_error n) chunk = take n chunk

abbrev pub send_some : List ℕ → Io → Io
send_some bytes io = record io { sent = io.sent ++ bytes }

abbrev pub write_chunk : WriteEnd → Option (List ℕ) → Io → Io
write_chunk end none io = io
write_chunk end (some chunk) io = send_some (taken_bytes end chunk) io

-- The branch that writes, until its end.
unfoldable pub finish_write : WriteEnd → Io → Io
unfolding pop
finish_write end io =
    let (chunk, io1) = pop io in
    let io2 = write_chunk end chunk io1 in
    if should_shutdown io1.transport
    then record io2 {
      shutdown = true;
      transport = record io2.transport { write_shutdown_done = true };
    }
    else io2

-- The branch that writes, until it is dropped.
unfoldable pub drop_write : WriteRun → Io → Io
unfolding pop
drop_write unpolled io = io
drop_write (in_write n) io = let (chunk, io1) = pop io in write_chunk (write_error n) chunk io1
drop_write in_flush io = let (chunk, io1) = pop io in write_chunk all_written chunk io1
drop_write (in_shutdown end) io =
    let (chunk, io1) = pop io in
    let io2 = write_chunk end chunk io1 in
    if should_shutdown io1.transport then record io2 { shutdown = true } else io2

unfoldable pub run_write : WriteRun → Io → Io
unfolding drop_write
run_write w io = if wants_write io.transport then drop_write w io else io

-- The branch that reads; `break` is at an error only.
unfoldable pub take_read : Protocol → ReadAnswer → Io → Turned
unfolding call
take_read protocol (read_bytes []) io =
    goes_on (
      call protocol eof_received
        (record io { transport = record io.transport { read_eof = true } }))
take_read protocol (read_bytes (b ∷ bs)) io = goes_on (call protocol (data_received (b ∷ bs)) io)
take_read protocol read_would_block io = goes_on io
take_read protocol read_error io = breaks io

-- `none` where the branch cannot complete, since its `if` fails.
unfoldable pub select : Protocol → Selected → Io → Option Turned
unfolding run_write finish_write take_read
select protocol (reads w answer) io =
    if io.transport.read_eof then none else some (take_read protocol answer (run_write w io))
select protocol (writes_out end) io =
    if wants_write io.transport then some (goes_on (finish_write end io)) else none
select protocol (sleeps w) io = some (goes_on (run_write w io))

-- Both halves of the test ask for the end of the input and an empty buffer.
abbrev pub should_exit : TokioTcpTransport → Bool
should_exit t =
    t.read_eof && is_nil t.write_buf || t.read_eof && t.write_shutdown_done && is_nil t.write_buf

abbrev pub check_exit : Turned → Turned
check_exit (goes_on io) = if should_exit io.transport then breaks io else goes_on io
check_exit (breaks io) = breaks io

-- One round of the loop.
unfoldable pub round : Protocol → Selected → Io → Option Turned
unfolding select
round protocol selected io =
    if io.transport.state_closing
    then some (breaks io)
    else if io.transport.state_paused
    then some (goes_on io)
    else elim (select protocol selected io) [ none ↦ none | some o ↦ some (check_exit o) ]

-- What has become of the loop: it runs, it has ended, or a branch was given that could not complete.
pub data IoEnd : Type 0 where
  running ended : Io → IoEnd
  impossible : IoEnd

-- The task until its end, with the call of `connection_lost`.
unfoldable pub run_io : Protocol → List Selected → Io → IoEnd
unfolding round call
run_io protocol [] io = running io
run_io protocol (s ∷ ss) io = elim (round protocol s io) [
  | none ↦ impossible
  | some (goes_on io1) ↦ run_io protocol ss io1
  | some (breaks io1) ↦ ended (call protocol connection_lost io1)
]

-- `attach`, with `start_io_task`: the task takes the stream; the protocol is told of the connection.
unfoldable pub attach : Protocol → Io → Io
unfolding call
attach protocol io =
    call protocol connection_made
      (record io { transport = record io.transport { has_stream = false; has_io_task = true } })
