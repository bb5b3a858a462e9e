-- ===== src/Tcp/WriteHandle.antt =====
-- The write handle of a TCP transport: `TCPWriteHandle` of src/tcp.rs. The answers of the system to its
-- writes are an input.
pub mod Bytes
pub mod Tls
pub mod Run
pub mod Frame
pub mod Finish
pub mod Rest
pub mod Open
pub mod Keeps
pub mod Pending
pub mod Timeout
pub mod Graceful
use tokioloop.Base.{
  drop, take, ℕ, ◌*◌, ◌/◌, ◌≤◌, ◌<◌, ◌+◌, ◌-◌, ◌%◌, ◌^◌, ◌==◌, ==_refl, ltb, leb, if◌then◌else◌,
  Bool, false, true, ◌&&◌, ◌||◌, not, Option, none, some, List, [], ◌∷◌, ◌++◌, length, ◌≡◌, ◌≢◌,
  ◌⊎◌, refl, ap, arith, Bool-cases, Option-cases, inl, inr,
}
use tokioloop.Deps.{
  Deps, Interest, readable, writable, both, is_readable, is_writable, same_interest, reads, writes,
  RegistryCall, register, reregister, deregister, Removal, absent, removed, kept,
}
use tokioloop.Handle.{
  Handle, cb_handle, cb_handle_one_arg, no_op_handle, tcp_read_handle, tcp_write_handle,
  udp_read_handle, udp_write_handle, cancelled, Timer,
}
use tokioloop.World.{
  World, TcpTransport, UdpTransport, TcpServerRef, PyHandleData, IoHandle, py, signals,
  tcp_listener, tcp_stream, udp_socket, Fault, Effect, connection_made, connection_lost,
  pause_writing, resume_writing, data_received, eof_received, sent, tls_written, shutdown_write,
  Returns, wake, Result, ok, panic, starved, unwrap_none, unreachable_code, already_borrowed,
  slice_range, new_cell, set_tcp, set_udp, emit, store, ◌>>=◌,
}
use tokioloop.EventLoop.Streams.{tcp_stream_rem}
use tokioloop.Tcp.Close.{
  is_some, is_empty, borrow, call_conn_lost, close_from_write_handle, tcp_stream_close,
  send_close_alert,
}
use tokioloop.Tcp.Write.{
  WriteResult, wrote, write_interrupted, would_block, write_failed, write_buf_size_decr,
}

-- What the loop over the buffer leaves: the bytes that the socket took, and the chunks left, `none`
-- where a write failed; nothing where the answers ran out.
pub data Flush : Type 0 where
  flushed : List ℕ → List (List ℕ) → Flush
  flush_failed : List ℕ → Flush
  flush_starved : Flush

abbrev pub sent_first : List ℕ → Flush → Flush
sent_first bytes (flushed more rest) = flushed (bytes ++ more) rest
sent_first bytes (flush_failed more) = flush_failed (bytes ++ more)
sent_first bytes flush_starved = flush_starved

-- The loop of `write` without TLS: an answer for each call. A partial write and `EWOULDBLOCK` end it,
-- with the rest put back in front; `EINTR` tries the chunk again. An answer of at least the chunk's
-- length is a full write, since the system never takes more than it is given.
unfoldable pub flush : List WriteResult → List (List ℕ) → Flush
flush answers [] = flushed [] []
flush [] (chunk ∷ rest) = flush_starved
flush (wrote n ∷ answers) (chunk ∷ rest) =
    let more = flush answers rest in
    if ltb n (length chunk)
    then flushed (take n chunk) (drop n chunk ∷ rest)
    else sent_first chunk more
flush (write_interrupted ∷ answers) (chunk ∷ rest) = flush answers (chunk ∷ rest)
flush (would_block ∷ answers) (chunk ∷ rest) = flushed [] (chunk ∷ rest)
flush (write_failed ∷ answers) (chunk ∷ rest) = flush_failed []

module _ (D : Deps) where
  -- `write_buf_dsize -= ret`, and the bytes counted; on a failure the buffer is cleared.
  apply_flush : ℕ → Flush → World D → Result (Option ℕ × World D)
  apply_flush r (flushed bytes rest) w =
      let t = w.tcp r in
      ok (
        some (length bytes),
        emit D (sent t.fd bytes) (
            set_tcp D r
              (record t { write_buf = rest; write_buf_dsize = t.write_buf_dsize - length bytes })
              w),
      )
  apply_flush r (flush_failed bytes) w =
      let t = w.tcp r in
      ok (
        none,
        emit D (sent t.fd bytes) (set_tcp D r (record t { write_buf = []; write_buf_dsize = 0 }) w),
      )
  apply_flush r flush_starved w = starved

  -- `TCPWriteHandle::write` without TLS: the bytes written, `none` for a failure.
  unfoldable pub write : ℕ → List WriteResult → World D → Result (Option ℕ × World D)
  unfolding flush apply_flush
  write r answers w = borrow D r w >>= λ t. apply_flush r (flush answers t.write_buf) w
