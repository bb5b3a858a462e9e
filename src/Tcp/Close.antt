-- ===== src/Tcp/Close.antt =====
-- Closing a TCP transport: call_conn_lost, close, abort, close_from_read_handle, close_from_write_handle
-- and recv_eof of src/tcp.rs, and tcp_stream_close of src/event_loop.rs. `r` is the transport's
-- reference, `now` the clock.
pub mod Lost
pub mod Forget
use tokioloop.Base.{
  ℕ, ◌*◌, ◌/◌, ◌≤◌, ◌<◌, ◌+◌, ◌-◌, ◌%◌, ◌^◌, ◌==◌, ==_refl, ltb, leb, if◌then◌else◌, Bool, false,
  true, ◌&&◌, ◌||◌, not, Option, none, some, List, [], ◌∷◌, ◌++◌, length, ◌≡◌, ◌≢◌, ◌⊎◌, refl, ap,
  arith, Bool-cases, Option-cases, inl, inr,
}
use tokioloop.Deps.{
  Deps, Interest, readable, writable, both, is_readable, is_writable, same_interest, reads, writes,
  RegistryCall, register, reregister, deregister, Removal, absent, removed, kept,
}
use tokioloop.Handle.{
  Handle, cb_handle, cb_handle_one_arg, no_op_handle, tcp_read_handle, tcp_write_handle,
  udp_read_handle, udp_write_handle, cancelled, Timer,
}
use tokioloop.World.{
  World, TcpTransport, UdpTransport, TcpServerRef, PyHandleData, IoHandle, py, signals,
  tcp_listener, tcp_stream, udp_socket, Fault, Effect, connection_made, connection_lost,
  pause_writing, resume_writing, data_received, eof_received, sent, tls_written, shutdown_write,
  Returns, wake, Result, ok, panic, starved, unwrap_none, unreachable_code, already_borrowed,
  slice_range, new_cell, set_tcp, set_udp, emit, store, ◌>>=◌,
}
use tokioloop.EventLoop.Streams.{tcp_stream_add, tcp_stream_rem}

abbrev pub is_some {ℓ} : {A : Type ℓ} → Option A → Bool
is_some none = false
is_some (some _) = true

abbrev pub is_empty {ℓ} : {A : Type ℓ} → List A → Bool
is_empty [] = true
is_empty (_ ∷ _) = false

module _ (D : Deps) where
  open D use {get, insert, remove, Conn, send_close_notify, write_tls}

  -- `state.borrow()` and `state.borrow_mut()`, where the borrow ends at once.
  abbrev pub borrow : ℕ → World D → Result (TcpTransport D)
  borrow r w = if (w.tcp r).borrowed then panic already_borrowed else ok (w.tcp r)

  -- `is_tls`
  unfoldable pub is_tls : ℕ → World D → Result Bool
  is_tls r w = borrow r w >>= λ t. ok (is_some t.tls_conn)

  -- The bytes of `write_tls` into an empty buffer, its error ignored.
  abbrev pub bytes_or_none : Option (List ℕ) → List ℕ
  bytes_or_none none = []
  bytes_or_none (some bs) = bs

  -- `send_close_notify`, `write_tls` and the write of what that gives; its result is ignored.
  unfoldable pub send_close_alert : ℕ → ℕ → Conn → World D → World D
  send_close_alert r now conn w =
      let t = w.tcp r in
      let (written, conn') = write_tls (send_close_notify conn) in
      let bytes = bytes_or_none written in
      let w' =
        set_tcp D r
          (record t {
            tls_conn = some conn';
            tls_close_sent = true;
            tls_close_sent_time = some now;
          })
          w in
      if is_empty bytes then w' else emit D (tls_written t.fd bytes) w'

  -- `close` of a TLS transport that was not closing. At the end the code takes the attribute
  -- `call_connection_lost` of the transport that the loop has for the descriptor; it does not call it.
  unfoldable pub close_tls : ℕ → ℕ → Conn → World D → Result (World D)
  unfolding send_close_alert
  close_tls r now conn w =
      let t = w.tcp r in
      let alert = tcp_stream_rem D t.fd writable (send_close_alert r now conn w) >>= λ w'.
      if is_some (get t.fd w'.tcp_transports) then ok w' else panic unwrap_none in
      if is_empty t.write_buf
      then alert
      else ok (set_tcp D r (record t { tls_pending_close = true }) w)

  -- `close` as `tcp_stream_close` calls it, on a transport with TLS.
  close_if_tls : ℕ → ℕ → Option Conn → World D → Result (World D)
  unfolding close_tls
  close_if_tls r now none w = ok w
  close_if_tls r now (some conn) w =
      let t = w.tcp r in
      let first = close_tls r now conn (set_tcp D r (record t { closing = true }) w) in
      if t.closing then ok w else first

  abbrev drop_stream : ℕ → ℕ → World D → Option (D.Map (Unit {0})) → World D
  drop_stream fd lfd w none = w
  drop_stream fd lfd w (some set) = record w {
    tcp_lstreams = insert lfd (remove fd set) w.tcp_lstreams;
  }

  abbrev leave_listener : ℕ → Option ℕ → World D → World D
  leave_listener fd none w = w
  leave_listener fd (some lfd) w = drop_stream fd lfd w (get lfd w.tcp_lstreams)

  unfoldable pub close_found : ℕ → ℕ → World D → Option ℕ → Result (World D)
  unfolding close_if_tls
  close_found fd now w none = ok w
  close_found fd now w (some r) = do
    t ← borrow r w
    w' ← close_if_tls r now t.tls_conn w
    ok (leave_listener fd t.lfd w')

  -- The transport leaves `tcp_transports`, is closed if it has TLS, and leaves its listener's set.
  unfoldable pub tcp_stream_close : ℕ → ℕ → World D → Result (World D)
  unfolding close_found
  tcp_stream_close fd now w =
      close_found fd now (record w { tcp_transports = remove fd w.tcp_transports })
        (get fd w.tcp_transports)

  unfoldable pub call_conn_lost : ℕ → ℕ → Bool → World D → Result (World D)
  unfolding tcp_stream_close
  call_conn_lost r now errored w =
      tcp_stream_close (w.tcp r).fd now (emit D (connection_lost r errored) w)

  -- The part of `close` after its test of TLS.
  unfoldable pub close_plain : ℕ → ℕ → World D → Result (World D)
  unfolding call_conn_lost
  close_plain r now w =
      let fd = (w.tcp r).fd in
      tcp_stream_rem D fd readable w >>= λ w1. borrow r w1 >>= λ t.
      let lost = tcp_stream_rem D fd writable w1 >>= λ w2. call_conn_lost r now false w2 in
      if t.write_buf_dsize == 0 || is_some t.tls_conn then lost else ok w1

  unfoldable pub close_by : ℕ → ℕ → Option Conn → World D → Result (World D)
  unfolding close_tls close_plain
  close_by r now none w = close_plain r now w
  close_by r now (some conn) w = close_tls r now conn w

  unfoldable pub close : ℕ → ℕ → World D → Result (World D)
  unfolding close_by
  close r now w =
      let t = w.tcp r in
      let first = do
        let w1 = set_tcp D r (record t { closing = true }) w
        t1 ← borrow r w1
        close_by r now t1.tls_conn w1
      in if t.closing then ok w else first

  unfoldable pub abort : ℕ → ℕ → World D → Result (World D)
  unfolding call_conn_lost
  abort r now w = do
    t ← borrow r w
    w1 ← if ltb 0 t.write_buf_dsize then tcp_stream_rem D t.fd writable w else ok w
    let w2 = set_tcp D r (record t { closing = true }) w1
    w3 ← if t.closing then ok w1 else tcp_stream_rem D t.fd readable w2
    call_conn_lost r now false w3

  -- The answer is whether the stream is to be closed. With TLS `close` finds the transport closing
  -- already, since this function has just marked it.
  unfoldable pub close_from_read_handle : ℕ → ℕ → World D → Result (Bool × World D)
  unfolding close
  close_from_read_handle r now w =
      let t = w.tcp r in
      let w1 = set_tcp D r (record t { closing = true }) w in
      let first = borrow r w1 >>= λ t1.
      let with_tls = close r now w1 >>= λ w2. ok (true, w2) in
      let plain = tcp_stream_rem D t.fd writable w1 >>= λ w2.
      ok (true, emit D (connection_lost r false) w2) in
      if is_some t1.tls_conn
      then with_tls
      else if is_empty t1.write_buf
      then plain
      else ok (false, w1) in
      if t.closing then ok (false, w) else first

  -- `Some(true)` closes the stream, `Some(false)` its write side.
  unfoldable pub close_from_write_handle : ℕ → Bool → World D → Option Bool × World D
  close_from_write_handle r errored w =
      let t = w.tcp r in
      if t.closing
      then (some true, emit D (connection_lost r errored) w)
      else (if t.weof then some false else none, w)

  -- `keep_open` is whether `eof_received` answers true; an error of it counts as no.
  unfoldable pub recv_eof : ℕ → ℕ → Bool → World D → Result (Bool × World D)
  unfolding close_from_read_handle call_conn_lost
  recv_eof r now keep_open w = do
    w1 ← tcp_stream_rem D (w.tcp r).fd readable w
    let w2 = emit D (eof_received r) w1
    let lost = call_conn_lost r now false w2 >>= λ w3. ok (true, w3)
    let rest = borrow r w2 >>= λ t.
        if is_some t.tls_conn && t.tls_close_sent then lost else close_from_read_handle r now w2
    if keep_open then ok (false, w2) else rest
