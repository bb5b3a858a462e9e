-- ===== src/Udp/Transport.antt =====
-- The datagram transport of src/udp.rs (`UDPTransport`), and _udp_conn and udp_socket_close of
-- src/event_loop.rs. `r` is the transport's reference; an address is a number.
pub mod Closing
use tokioloop.Base.{
  take, drop, ℕ, ◌*◌, ◌/◌, ◌≤◌, ◌<◌, ◌+◌, ◌-◌, ◌%◌, ◌^◌, ◌==◌, ==_refl, ltb, leb, if◌then◌else◌,
  Bool, false, true, ◌&&◌, ◌||◌, not, Option, none, some, List, [], ◌∷◌, ◌++◌, length, ◌≡◌, ◌≢◌,
  ◌⊎◌, refl, ap, arith, Bool-cases, Option-cases, inl, inr,
}
use tokioloop.Deps.{
  Deps, Interest, readable, writable, both, is_readable, is_writable, same_interest, reads, writes,
  RegistryCall, register, reregister, deregister, Removal, absent, removed, kept,
}
use tokioloop.Handle.{
  Handle, cb_handle, cb_handle_one_arg, no_op_handle, tcp_read_handle, tcp_write_handle,
  udp_read_handle, udp_write_handle, cancelled, Timer,
}
use tokioloop.World.{
  World, UdpEffect, datagram_made, datagram_lost, datagram_pause, datagram_resume,
  datagram_received, error_received, datagram_sent, datagram, TcpTransport, UdpTransport,
  TcpServerRef, PyHandleData, IoHandle, py, signals, tcp_listener, tcp_stream, udp_socket, Fault,
  Effect, connection_made, connection_lost, pause_writing, resume_writing, data_received,
  eof_received, sent, tls_written, shutdown_write, Returns, wake, Result, ok, panic, starved,
  unwrap_none, unreachable_code, already_borrowed, slice_range, new_cell, set_tcp, set_udp, emit,
  store, ◌>>=◌,
}
use tokioloop.EventLoop.Sockets.{udp_socket_add, udp_socket_rem}
use tokioloop.Tcp.Close.{is_empty}
use tokioloop.Tcp.Write.{
  WriteResult, wrote, write_interrupted, would_block, write_failed, Answer, done, runtime_error,
  value_error, not_implemented, high_mark, low_mark,
}

unfoldable pub new : ℕ → Option ℕ → UdpTransport
new fd remote_addr =
    let wh = 1024 * 64 in
    record {
      fd = fd;
      borrowed = false;
      remote_addr = remote_addr;
      write_buf = [];
      write_buf_dsize = 0;
      closing = false;
      water_hi = wh;
      water_lo = wh / 4;
      proto_paused = false;
    }

module _ (D : Deps) where
  open D use {insert, remove}

  -- `state.borrow()` and `state.borrow_mut()`.
  abbrev pub borrow_udp : ℕ → World D → Result UdpTransport
  borrow_udp r w = if (w.udp r).borrowed then panic already_borrowed else ok (w.udp r)

  abbrev pub lock_udp : ℕ → Bool → World D → World D
  lock_udp r b w = set_udp D r (record (w.udp r) { borrowed = b }) w

  -- `_udp_conn`, with `attach`.
  unfoldable pub udp_conn : ℕ → ℕ → Option ℕ → World D → Result (World D)
  unfolding new
  udp_conn fd r remote_addr w =
      let w1 = emit D (datagram (datagram_made r)) (set_udp D r (new fd remote_addr) w) in
      udp_socket_add D fd readable (record w1 { udp_transports = insert fd r w1.udp_transports })

  unfoldable pub udp_socket_close : ℕ → World D → World D
  udp_socket_close fd w = record w { udp_transports = remove fd w.udp_transports }

  abbrev pub conn_lost : ℕ → Bool → World D → World D
  conn_lost r errored w = emit D (datagram (datagram_lost r errored)) w

  unfoldable pub close : ℕ → World D → Result (World D)
  close r w =
      let t = w.udp r in
      let first = do
        w1 ← udp_socket_rem D t.fd readable (set_udp D r (record t { closing = true }) w)
        t1 ← borrow_udp r w1
        let lost = udp_socket_rem D t.fd writable w1 >>= λ w2. ok (conn_lost r false w2)
        if t1.write_buf_dsize == 0 then lost else ok w1
      in if t.closing then ok w else first

  unfoldable pub abort : ℕ → World D → Result (World D)
  abort r w = do
    t ← borrow_udp r w
    w1 ← if ltb 0 t.write_buf_dsize then udp_socket_rem D t.fd writable w else ok w
    let w2 = set_udp D r (record t { closing = true }) w1
    w3 ← if t.closing then ok w1 else udp_socket_rem D t.fd readable w2
    ok (conn_lost r false w3)

  -- `proto_pause` where `compare_exchange(false, true)` succeeds; an error of the callback is logged.
  abbrev pub pause_udp_if : Bool → ℕ → World D → World D
  pause_udp_if above r w =
      let t = w.udp r in
      if above && not t.proto_paused
      then emit D (datagram (datagram_pause r)) (set_udp D r (record t { proto_paused = true }) w)
      else w

  unfoldable pub write_buf_size_decr : ℕ → World D → Result (World D)
  write_buf_size_decr r w = borrow_udp r w >>= λ t. ok (
      if leb t.write_buf_dsize t.water_lo && t.proto_paused
      then emit D (datagram (datagram_resume r)) (set_udp D r (record t { proto_paused = false }) w)
      else w)

  unfoldable pub close_from_write_handle : ℕ → Bool → World D → Bool × World D
  close_from_write_handle r errored w =
      if (w.udp r).closing then (true, conn_lost r errored w) else (false, w)

  -- The number of bytes added, and the state.
  unfoldable pub push_datagram : ℕ → List ℕ → ℕ → World D → ℕ × World D
  push_datagram r chunk addr w =
      let t = w.udp r in
      (length chunk, set_udp D r (record t { write_buf = t.write_buf ++ ((chunk, addr) ∷ []) }) w)

  unfoldable pub fail_datagram : ℕ → World D → Result (ℕ × World D)
  fail_datagram r w = do
    let t = w.udp r
    w1 ← if ltb 0 t.write_buf_dsize then udp_socket_rem D t.fd writable w else ok w
    let w2 = set_udp D r (record t { closing = true }) w1
    w3 ← if t.closing then ok w1 else udp_socket_rem D t.fd readable w2
    ok (0, conn_lost r true w3)

  -- `send_to`, for which the code borrows the state once more.
  unfoldable pub send_datagram : ℕ → List ℕ → ℕ → WriteResult → World D → Result (ℕ × World D)
  unfolding push_datagram fail_datagram
  send_datagram r bytes addr (wrote n) w =
      let fd = (w.udp r).fd in
      if n == length bytes
      then ok (0, emit D (datagram (datagram_sent fd bytes addr)) w)
      else if ltb (length bytes) n
      then panic slice_range
      else ok (
          push_datagram r (drop n bytes) addr
            (emit D (datagram (datagram_sent fd (take n bytes) addr)) w))
  send_datagram r bytes addr write_interrupted w = ok (push_datagram r bytes addr w)
  send_datagram r bytes addr would_block w = ok (push_datagram r bytes addr w)
  send_datagram r bytes addr write_failed w = fail_datagram r w

  unfoldable pub count_datagram : ℕ → ℕ → World D → Result (World D)
  count_datagram r added w =
      let t = w.udp r in
      let size = t.write_buf_dsize + added in
      let watched = if t.write_buf_dsize == 0 then udp_socket_add D t.fd writable w else ok w in
      let counted = watched >>= λ w1. ok (
        pause_udp_if (ltb t.water_hi size) r
          (set_udp D r (record t { write_buf_dsize = size }) w1)) in
      if ltb 0 added then counted else ok w

  -- `UDPTransport::write`: the state is mutably borrowed from its start to its end.
  unfoldable pub write : ℕ → List ℕ → ℕ → WriteResult → World D → Result (World D)
  unfolding send_datagram count_datagram push_datagram
  write r bytes addr answer w = borrow_udp r w >>= λ t.
      let w1 = lock_udp r true w in
      let direct = borrow_udp r w1 >>= λ _. send_datagram r bytes addr answer w1 in
      let added = if t.write_buf_dsize == 0 then direct else ok (push_datagram r bytes addr w1) in
      added >>= λ (n, w2). count_datagram r n w2 >>= λ w3. ok (lock_udp r false w3)

  -- The address that is given, parsed, or else the transport's own.
  abbrev address : Option (Option ℕ) → Option ℕ → Result (Option ℕ)
  address none remote_addr = ok remote_addr
  address (some none) remote_addr = panic unwrap_none
  address (some (some addr)) remote_addr = ok (some addr)

  write_to : ℕ → List ℕ → WriteResult → World D → Option ℕ → Result (Answer × World D)
  write_to r bytes answer w none = ok (value_error, w)
  write_to r bytes answer w (some addr) = write r bytes addr answer w >>= λ w'. ok (done, w')

  unfoldable pub sendto :
      ℕ → List ℕ → Option (Option ℕ) → WriteResult → World D → Result (Answer × World D)
  unfolding write_to
  sendto r bytes addr answer w =
      let send = borrow_udp r w >>= λ t.
      address addr t.remote_addr >>= λ target. write_to r bytes answer w target in
      if (w.udp r).closing
      then ok (runtime_error, w)
      else if is_empty bytes
      then ok (done, w)
      else send

  -- `v * 4` does not overflow for a limit below 2 ^ 62.
  unfoldable pub set_write_buffer_limits :
      ℕ → Option ℕ → Option ℕ → World D → Result (Answer × World D)
  set_write_buffer_limits r high low w =
      let wh = high_mark D high low in
      let wl = low_mark D wh low in
      let w1 = set_udp D r (record (w.udp r) { water_hi = wh; water_lo = wl }) w in
      let limited =
        borrow_udp r w1 >>= λ t. ok (done, pause_udp_if (ltb wh t.write_buf_dsize) r w1) in
      if ltb wh wl then ok (value_error, w) else limited
