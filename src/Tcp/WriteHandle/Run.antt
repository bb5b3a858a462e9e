-- ===== src/Tcp/WriteHandle/Run.antt =====
-- `Handle::run` of `TCPWriteHandle` of src/tcp.rs. `fd` is the handle's descriptor, `now` the clock in
-- microseconds; the answers of the system to its writes are an input.
use tokioloop.Base.{
  ℕ, ◌*◌, ◌-◌, ltb, if◌then◌else◌, Bool, false, true, ◌&&◌, Option, none, some, List,
}
use tokioloop.Deps.{Deps, readable, writable}
use tokioloop.World.{World, TcpTransport, shutdown_write, Result, ok, set_tcp, emit, ◌>>=◌}
use tokioloop.EventLoop.Streams.{tcp_stream_rem}
use tokioloop.Tcp.Close.{
  is_some, is_empty, borrow, call_conn_lost, close_from_write_handle, tcp_stream_close,
  send_close_alert,
}
use tokioloop.Tcp.Write.{WriteResult, write_buf_size_decr}
use tokioloop.Tcp.WriteHandle.{write}
use tokioloop.Tcp.WriteHandle.Tls.{write_with_tls}

-- `sent_time.elapsed() > timeout`, the timeout in milliseconds.
abbrev pub late : ℕ → ℕ → Option ℕ → Bool
late now timeout none = false
late now timeout (some sent) = ltb (timeout * 1000) (now - sent)

module _ (D : Deps) where
  open D use {get, Conn}

  -- Whether the peer has not answered the close alert in time.
  unfoldable pub is_overdue : ℕ → TcpTransport D → Bool
  is_overdue now t =
      t.tls_close_sent && is_some t.tls_conn && late now t.ssl_close_timeout t.tls_close_sent_time

  unfoldable pub force_close : ℕ → ℕ → ℕ → World D → Result (World D)
  force_close fd r now w = tcp_stream_rem D fd readable w >>= λ w1.
      tcp_stream_rem D fd writable w1 >>= λ w2. call_conn_lost D r now false w2

  -- `write`, by whether the transport has TLS.
  unfoldable pub write_buffer :
      ℕ → List WriteResult → World D → Option Conn → Result (Option ℕ × World D)
  write_buffer r answers w none = write D r answers w
  write_buffer r answers w (some conn) = write_with_tls D r conn answers w

  -- The close alert that waited for the buffer to be empty; the answer is to close the stream.
  unfoldable pub send_pending_alert : ℕ → ℕ → World D → Option Conn → World D
  unfolding send_close_alert
  send_pending_alert r now w none = w
  send_pending_alert r now w (some conn) =
      let w' = send_close_alert D r now conn w in
      set_tcp D r (record (w'.tcp r) { tls_pending_close = false }) w'

  -- What follows a write that did not fail: whether to close the stream.
  unfoldable pub after_flush : ℕ → ℕ → World D → Result (Option Bool × World D)
  unfolding send_pending_alert
  after_flush r now w = borrow D r w >>= λ t.
      if is_empty t.write_buf
      then (if t.tls_pending_close
          then ok (some true, send_pending_alert r now w t.tls_conn)
          else ok (close_from_write_handle D r false w))
      else ok (none, w)

  unfoldable pub after_write : ℕ → ℕ → Option ℕ → World D → Result (Option Bool × World D)
  unfolding after_flush
  after_write r now none w = ok (close_from_write_handle D r true w)
  after_write r now (some written) w =
      after_flush r now (if ltb 0 written then write_buf_size_decr D r w else w)

  unfoldable pub finish_stream : ℕ → ℕ → ℕ → Option Bool → World D → Result (World D)
  finish_stream fd r now (some true) w = tcp_stream_close D fd now w
  finish_stream fd r now (some false) w = ok (emit D (shutdown_write (w.tcp r).fd) w)
  finish_stream fd r now none w = ok w

  -- The end of `run`, with whether to close the stream.
  unfoldable pub finish_run : ℕ → ℕ → ℕ → Option Bool × World D → Result (World D)
  unfolding finish_stream
  finish_run fd r now (stream_close, w) = borrow D r w >>= λ t.
      let forget = tcp_stream_rem D fd writable w in
      (if is_empty t.write_buf then forget else ok w) >>= finish_stream fd r now stream_close

  unfoldable pub run_found : ℕ → ℕ → List WriteResult → World D → Option ℕ → Result (World D)
  unfolding write_buffer after_write finish_run is_overdue force_close
  run_found fd now answers w none = ok w
  run_found fd now answers w (some r) = borrow D r w >>= λ t.
      let forced = force_close fd r now w in
      let flushed = write_buffer r answers w t.tls_conn >>= λ (written, w1).
      after_write r now written w1 >>= finish_run fd r now in
      if is_overdue now t then forced else flushed

  -- A handle whose transport the loop no longer has does nothing.
  unfoldable pub run : ℕ → ℕ → List WriteResult → World D → Result (World D)
  unfolding run_found
  run fd now answers w = run_found fd now answers w (get fd w.tcp_transports)
