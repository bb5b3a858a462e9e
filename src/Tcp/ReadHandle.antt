-- ===== src/Tcp/ReadHandle.antt =====
-- The read handle of a TCP transport: `TCPReadHandle` of src/tcp.rs but for recv_eof, which stands with
-- the closing of a transport. The answers of the socket to its reads are an input.
pub mod Run
pub mod Session
pub mod Eof
pub mod Closing
pub mod Unseen
pub mod Input
use tokioloop.Base.{
  zero, suc, ℕ, ◌-◌, ltb, if◌then◌else◌, Bool, false, true, ◌&&◌, not, Option, none, some, List, [],
  ◌∷◌, ◌++◌, length, take,
}
use tokioloop.Deps.{Deps, writable, PacketResult, tls_error, io_state}
use tokioloop.World.{
  World, data_received, Result, ok, panic, starved, unwrap_none, set_tcp, emit, ◌>>=◌,
}
use tokioloop.EventLoop.Schedule.{schedule1}
use tokioloop.EventLoop.Signals.{ReadResult, read_bytes, read_interrupted, read_failed}
use tokioloop.EventLoop.Streams.{tcp_stream_add}
use tokioloop.Tcp.Close.{is_some, is_empty, borrow, recv_eof, tcp_stream_close}

-- The bytes read, whether the peer has closed, and the answers left.
abbrev pub Input : Type 0
Input = List ℕ × Bool × List ReadResult

abbrev pub after_bytes : List ℕ → Option Input → Option Input
after_bytes bytes none = none
after_bytes bytes (some (more, closed, answers)) = some (bytes ++ more, closed, answers)

-- `read_into` a buffer of `room` bytes; `none` if the answers run out. A read gives no more than the
-- buffer has room for; an empty read with room left is the end of the stream.
unfoldable pub read_into : List ReadResult → ℕ → Option Input
read_into [] room = none
read_into (read_interrupted ∷ answers) room = read_into answers room
read_into (read_failed ∷ answers) room = some ([], false, answers)
read_into (read_bytes bs ∷ answers) room =
    let got = take room bs in
    let more = read_into answers (room - length got) in
    if is_empty got then some ([], ltb 0 room, answers) else after_bytes got more

-- What a round of the loop meets: the answers of the socket, the length of the protocol's buffer, the
-- number of reads after which the TLS reader is empty, the protocol's `connection_made` if it has one,
-- the flag of a new handle, and Python's `None`.
pub record Round : Type 0 where
  pub answers : List ReadResult
  pub room : ℕ
  pub reads : ℕ
  pub conn_made : Option ℕ
  pub cell : ℕ
  pub py_none : ℕ

-- The length of `read_buf`.
abbrev pub read_buf_size : ℕ
read_buf_size = 262144

module _ (D : Deps) where
  open D use {
    get, Conn, wants_write, is_handshaking, send_close_notify, read_tls, process_new_packets,
    reader_read,
  }

  -- The data for the protocol, and whether the stream has ended.
  abbrev pub Received : Type 0
  Received = (Option (List ℕ) × Bool) × World D

  abbrev pub data_of : List ℕ → Option (List ℕ)
  data_of [] = none
  data_of (b ∷ bs) = some (b ∷ bs)

  -- `recv_direct` without TLS, and `recv_buffered`, by the length of the buffer.
  unfoldable pub recv_plain : ℕ → ℕ → List ReadResult → World D → Result Received
  recv_plain r room answers w = borrow D r w >>= λ _. elim (read_into answers room) [
    | none ↦ starved
    | some (bytes, closed, _) ↦ ok ((data_of bytes, closed), w)
  ]

  abbrev pub with_conn : ℕ → Conn → World D → World D
  with_conn r conn w = set_tcp D r (record (w.tcp r) { tls_conn = some conn }) w

  -- The argument of `connection_made`: the transport that the loop has for the descriptor.
  abbrev transport_arg : ℕ → Option ℕ → ℕ
  transport_arg py_none none = py_none
  transport_arg py_none (some r) = r

  -- `connection_made` is scheduled, where the protocol has it.
  unfoldable pub schedule_made : ℕ → Round → Option ℕ → World D → World D
  unfolding schedule1
  schedule_made fd round none w = w
  schedule_made fd round (some conn_made) w =
      schedule1 D conn_made (transport_arg round.py_none (get fd w.tcp_transports)) none round.cell
        w

  -- The end of the handshake is noted once, and `connection_made` scheduled once.
  unfoldable pub note_handshake : ℕ → ℕ → Round → Conn → World D → World D
  unfolding schedule_made
  note_handshake fd r round conn w =
      let t = w.tcp r in
      let noted = set_tcp D r (record t { handshake_complete = true }) w in
      let made =
        schedule_made fd round round.conn_made
          (set_tcp D r (record t { handshake_complete = true; connection_made_called = true }) w) in
      if not t.handshake_complete && not (is_handshaking conn)
      then (if t.connection_made_called then noted else made)
      else w

  -- The loop over the reader: it ends with an empty read or an error.
  unfoldable pub drain_reader : ℕ → Conn → Result (List ℕ × Conn)
  drain_reader zero conn = starved
  drain_reader (suc n) conn =
      let (read, conn') = reader_read conn in
      let rest = drain_reader n conn' in
      elim read [
        | none ↦ ok ([], conn')
        | some [] ↦ ok ([], conn')
        | some (b ∷ bs) ↦ rest >>= λ (more, c). ok ((b ∷ bs) ++ more, c)
      ]

  -- The test at the end of the TLS branch: a read into an empty buffer.
  unfoldable pub check_closed : ℕ → List ReadResult → World D → Result Received
  check_closed r answers w = elim (read_into answers 0) [
    | none ↦ starved
    | some (bytes, closed, _) ↦
        if is_empty bytes && (w.tcp r).tls_close_sent
        then ok ((none, true), w)
        else ok ((none, closed), w)
  ]

  -- The decrypted data, once the handshake is complete; without any, the test.
  unfoldable pub read_application : ℕ → ℕ → List ReadResult → Conn → World D → Result Received
  unfolding drain_reader check_closed
  read_application r reads answers conn w =
      let drained = drain_reader reads conn >>= λ (app_data, conn').
      let w' = with_conn r conn' w in
      if is_empty app_data then check_closed r answers w' else ok ((some app_data, false), w') in
      if (w.tcp r).handshake_complete then drained else check_closed r answers w

  -- The packets are processed: an error and the peer's close alert end the stream.
  unfoldable pub after_packets :
      ℕ → ℕ → Round → List ReadResult → PacketResult × Conn → World D → Result Received
  unfolding note_handshake read_application
  after_packets fd r round answers (tls_error, conn) w = ok ((none, true), with_conn r conn w)
  after_packets fd r round answers (io_state true, conn) w = ok (
    (none, true),
    set_tcp D r
        (record (w.tcp r) { tls_conn = some (send_close_notify conn); tls_close_received = true })
        w,
  )
  after_packets fd r round answers (io_state false, conn) w = do
    let w1 = note_handshake fd r round conn (with_conn r conn w)
    w2 ← if wants_write conn then tcp_stream_add D (w.tcp r).fd writable w1 else ok w1
    read_application r round.reads answers conn w2

  -- `read_tls`, once, of all the bytes read.
  unfoldable pub feed : ℕ → ℕ → Round → List ℕ → List ReadResult → Conn → World D → Result Received
  unfolding after_packets
  feed fd r round bytes answers conn w =
      let (taken, conn') = read_tls bytes conn in
      let packets = after_packets fd r round answers (process_new_packets conn') w in
      elim taken [ none ↦ ok ((none, true), with_conn r conn' w) | some _ ↦ packets ]

  -- `recv_direct` with TLS.
  unfoldable pub recv_tls : ℕ → ℕ → Round → Conn → World D → Result Received
  unfolding feed check_closed
  recv_tls fd r round conn w = borrow D r w >>= λ _. elim (read_into round.answers read_buf_size) [
    | none ↦ starved
    | some (bytes, _, answers) ↦
        if is_empty bytes then check_closed r answers w else feed fd r round bytes answers conn w
  ]

  unfoldable pub recv_direct : ℕ → ℕ → Round → Option Conn → World D → Result Received
  unfolding recv_tls recv_plain
  recv_direct fd r round none w = recv_plain r read_buf_size round.answers w
  recv_direct fd r round (some conn) w = recv_tls fd r round conn w

  -- `recv_buffered`, which does not ask for TLS, or `recv_direct`.
  unfoldable pub recv : ℕ → ℕ → Round → World D → Result Received
  unfolding recv_direct recv_plain
  recv fd r round w = borrow D r w >>= λ t.
      if t.proto_buffered
      then recv_plain r round.room round.answers w
      else recv_direct fd r round t.tls_conn w
