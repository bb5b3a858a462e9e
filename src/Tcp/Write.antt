-- ===== src/Tcp/Write.antt =====
-- Writing to a TCP transport and its flow control: try_write, proto_pause, proto_resume,
-- write_buf_size_decr, write_eof, pause_reading, resume_reading and set_write_buffer_limits of
-- src/tcp.rs.
pub mod Output
pub mod Account
pub mod Stream
pub mod Failing
use tokioloop.Base.{
  take, drop, ℕ, ◌*◌, ◌/◌, ◌≤◌, ◌<◌, ◌+◌, ◌-◌, ◌%◌, ◌^◌, ◌==◌, ==_refl, ltb, leb, if◌then◌else◌,
  Bool, false, true, ◌&&◌, ◌||◌, not, Option, none, some, List, [], ◌∷◌, ◌++◌, length, ◌≡◌, ◌≢◌,
  ◌⊎◌, refl, ap, arith, Bool-cases, Option-cases, inl, inr,
}
use tokioloop.Deps.{
  Deps, Interest, readable, writable, both, is_readable, is_writable, same_interest, reads, writes,
  RegistryCall, register, reregister, deregister, Removal, absent, removed, kept,
}
use tokioloop.Handle.{
  Handle, cb_handle, cb_handle_one_arg, no_op_handle, tcp_read_handle, tcp_write_handle,
  udp_read_handle, udp_write_handle, cancelled, Timer,
}
use tokioloop.World.{
  World, TcpTransport, UdpTransport, TcpServerRef, PyHandleData, IoHandle, py, signals,
  tcp_listener, tcp_stream, udp_socket, Fault, Effect, connection_made, connection_lost,
  pause_writing, resume_writing, data_received, eof_received, sent, tls_written, shutdown_write,
  Returns, wake, Result, ok, panic, starved, unwrap_none, unreachable_code, already_borrowed,
  slice_range, new_cell, set_tcp, set_udp, emit, store, ◌>>=◌,
}
use tokioloop.EventLoop.Streams.{tcp_stream_add, tcp_stream_rem}
use tokioloop.Tcp.Close.{is_some, is_empty, borrow, call_conn_lost}

-- What the system answers to one `write`: the bytes taken, EINTR, EWOULDBLOCK, or another error.
pub data WriteResult : Type 0 where
  wrote : ℕ → WriteResult
  write_interrupted would_block write_failed : WriteResult

-- What Python gets back: nothing, a `RuntimeError` or a `ValueError`.
pub data Answer : Type 0 where
  done runtime_error value_error not_implemented : Answer

module _ (D : Deps) where
  abbrev pub lock : ℕ → Bool → World D → World D
  lock r b w = set_tcp D r (record (w.tcp r) { borrowed = b }) w

  -- `write_buf.push_back`; the answer is the number of bytes added.
  unfoldable pub push_back : ℕ → List ℕ → World D → ℕ × World D
  push_back r chunk w =
      let t = w.tcp r in
      (length chunk, set_tcp D r (record t { write_buf = t.write_buf ++ (chunk ∷ []) }) w)

  -- The error path of the direct write, while the state is mutably borrowed.
  unfoldable pub fail_write : ℕ → ℕ → World D → Result (ℕ × World D)
  unfolding call_conn_lost
  fail_write r now w = do
    let t = w.tcp r
    w1 ← if ltb 0 t.write_buf_dsize then tcp_stream_rem D t.fd writable w else ok w
    let w2 = set_tcp D r (record t { closing = true }) w1
    w3 ← if t.closing then ok w1 else tcp_stream_rem D t.fd readable w2
    w4 ← call_conn_lost D r now true w3
    ok (0, w4)

  -- The direct write of an empty buffer. A count above the length would be a slice out of range.
  unfoldable pub direct_write : ℕ → ℕ → List ℕ → WriteResult → World D → Result (ℕ × World D)
  unfolding push_back fail_write
  direct_write r now bytes (wrote n) w =
      let fd = (w.tcp r).fd in
      let partial = push_back r (drop n bytes) (emit D (sent fd (take n bytes)) w) in
      if n == length bytes
      then ok (0, emit D (sent fd bytes) w)
      else if ltb (length bytes) n
      then panic slice_range
      else ok partial
  direct_write r now bytes write_interrupted w = ok (push_back r bytes w)
  direct_write r now bytes would_block w = ok (push_back r bytes w)
  direct_write r now bytes write_failed w = fail_write r now w

  -- The bytes go to the socket at once if nothing is buffered and there is no TLS.
  unfoldable pub add_output : ℕ → ℕ → List ℕ → WriteResult → World D → Result (ℕ × World D)
  unfolding direct_write push_back
  add_output r now bytes answer w =
      let t = w.tcp r in
      let direct = direct_write r now bytes answer w in
      let buffered = push_back r bytes w in
      if is_some t.tls_conn
      then ok buffered
      else if t.write_buf_dsize == 0
      then direct
      else ok buffered

  -- `proto_pause` where `compare_exchange(false, true)` succeeds; an error of the callback is logged.
  abbrev pub pause_if : Bool → ℕ → World D → World D
  pause_if above r w =
      let t = w.tcp r in
      if above && not t.proto_paused
      then emit D (pause_writing r) (set_tcp D r (record t { proto_paused = true }) w)
      else w

  unfoldable pub watch_writable : ℕ → World D → Result (World D)
  watch_writable r w =
      let watched = tcp_stream_add D (w.tcp r).fd writable w in
      if (w.tcp r).write_buf_dsize == 0 then watched else ok w

  unfoldable pub count_added : ℕ → ℕ → World D → World D
  count_added r added w =
      let t = w.tcp r in
      let size = t.write_buf_dsize + added in
      pause_if (ltb t.water_hi size) r (set_tcp D r (record t { write_buf_dsize = size }) w)

  -- What `try_write` does after the write, with the number of bytes that it buffered.
  unfoldable pub account : ℕ → ℕ → World D → Result (World D)
  unfolding watch_writable count_added
  account r added w =
      let counted = watch_writable r w >>= λ w1. ok (count_added r added w1) in
      if ltb 0 added then counted else ok w

  -- `try_write` from its `borrow_mut` on; the borrow ends with the function.
  unfoldable pub buffered_write : ℕ → ℕ → List ℕ → WriteResult → World D → Result (Answer × World D)
  unfolding add_output account
  buffered_write r now bytes answer w =
      add_output r now bytes answer (lock r true w) >>= λ (added, w1).
      account r added w1 >>= λ w2. ok (done, lock r false w2)

  unfoldable pub try_write : ℕ → ℕ → List ℕ → WriteResult → World D → Result (Answer × World D)
  try_write r now bytes answer w =
      let write = borrow D r w >>= λ _. buffered_write r now bytes answer w in
      if (w.tcp r).weof
      then ok (runtime_error, w)
      else if is_empty bytes
      then ok (done, w)
      else write

  unfoldable pub write_buf_size_decr : ℕ → World D → World D
  write_buf_size_decr r w =
      let t = w.tcp r in
      if leb t.write_buf_dsize t.water_lo && t.proto_paused
      then emit D (resume_writing r) (set_tcp D r (record t { proto_paused = false }) w)
      else w

  unfoldable pub pause_reading : ℕ → World D → Result (World D)
  pause_reading r w =
      let t = w.tcp r in
      let paused = tcp_stream_rem D t.fd readable (set_tcp D r (record t { paused = true }) w) in
      if t.closing || t.paused then ok w else paused

  unfoldable pub resume_reading : ℕ → World D → Result (World D)
  resume_reading r w =
      let t = w.tcp r in
      let resumed = tcp_stream_add D t.fd readable (set_tcp D r (record t { paused = false }) w) in
      if t.closing || not t.paused then ok w else resumed

  abbrev pub high_mark : Option ℕ → Option ℕ → ℕ
  high_mark none none = 1024 * 64
  high_mark none (some low) = low * 4
  high_mark (some high) low = high

  abbrev pub low_mark : ℕ → Option ℕ → ℕ
  low_mark wh none = wh / 4
  low_mark wh (some low) = low

  -- `v * 4` does not overflow for a limit below 2 ^ 62.
  unfoldable pub set_write_buffer_limits : ℕ → Option ℕ → Option ℕ → World D → Answer × World D
  set_write_buffer_limits r high low w =
      let wh = high_mark high low in
      let wl = low_mark wh low in
      let w1 = set_tcp D r (record (w.tcp r) { water_hi = wh; water_lo = wl }) w in
      if ltb wh wl
      then (value_error, w)
      else (done, pause_if (ltb wh (w.tcp r).write_buf_dsize) r w1)

  unfoldable pub write_eof : ℕ → World D → World D
  write_eof r w =
      let t = w.tcp r in
      let w1 = set_tcp D r (record t { weof = true }) w in
      if t.closing || t.weof
      then w
      else if t.write_buf_dsize == 0
      then emit D (shutdown_write t.fd) w1
      else w1
