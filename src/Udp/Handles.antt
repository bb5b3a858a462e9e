-- ===== src/Udp/Handles.antt =====
-- The handles that the loop runs for a datagram transport: `UDPReadHandle` and `UDPWriteHandle` of
-- src/udp.rs. What the system answers to their calls is an input; a callback into Python does not
-- change the state here.
use tokioloop.Base.{
  drop, take, ℕ, ◌+◌, ◌-◌, ltb, if◌then◌else◌, Bool, false, true, Option, none, some, List, [], ◌∷◌,
  length,
}
use tokioloop.Deps.{Deps, writable}
use tokioloop.World.{
  World, datagram_received, error_received, datagram_sent, datagram, Result, ok, panic, starved,
  unwrap_none, set_udp, emit, ◌>>=◌,
}
use tokioloop.EventLoop.Sockets.{udp_socket_rem}
use tokioloop.Tcp.Close.{is_empty}
use tokioloop.Tcp.Write.{WriteResult, wrote, write_interrupted, would_block, write_failed}
use tokioloop.Udp.Transport.{
  borrow_udp, udp_socket_close, close_from_write_handle, write_buf_size_decr,
}

-- What the system answers to `recv_from`.
pub data RecvResult : Type 0 where
  received : List ℕ → ℕ → RecvResult
  recv_interrupted recv_would_block recv_failed : RecvResult

-- A datagram is its bytes and its address. What the loop over the buffer leaves: the parts that the
-- socket took, and the datagrams left.
pub data UdpFlush : Type 0 where
  datagrams_left : List (List ℕ × ℕ) → List (List ℕ × ℕ) → UdpFlush
  datagrams_failed : List (List ℕ × ℕ) → UdpFlush
  datagrams_starved : UdpFlush

abbrev pub sent_datagram : List ℕ × ℕ → UdpFlush → UdpFlush
sent_datagram d (datagrams_left more rest) = datagrams_left (d ∷ more) rest
sent_datagram d (datagrams_failed more) = datagrams_failed (d ∷ more)
sent_datagram d datagrams_starved = datagrams_starved

-- The loop of `UDPWriteHandle::write`: an answer for each call. A full write is an answer of the
-- datagram's length, since the system takes no more than it is given.
unfoldable pub flush_datagrams : List WriteResult → List (List ℕ × ℕ) → UdpFlush
flush_datagrams answers [] = datagrams_left [] []
flush_datagrams [] (d ∷ rest) = datagrams_starved
flush_datagrams (wrote n ∷ answers) (d ∷ rest) =
    let more = flush_datagrams answers rest in
    if ltb n (length d.0)
    then datagrams_left ((take n d.0, d.1) ∷ []) ((drop n d.0, d.1) ∷ rest)
    else sent_datagram d more
flush_datagrams (write_interrupted ∷ answers) (d ∷ rest) = flush_datagrams answers (d ∷ rest)
flush_datagrams (would_block ∷ answers) (d ∷ rest) = datagrams_left [] (d ∷ rest)
flush_datagrams (write_failed ∷ answers) (d ∷ rest) = datagrams_failed []

abbrev pub size : List (List ℕ × ℕ) → ℕ
size [] = 0
size (d ∷ ds) = length d.0 + size ds

module _ (D : Deps) where
  open D use {get}

  abbrev emit_sent : ℕ → List (List ℕ × ℕ) → World D → World D
  emit_sent fd [] w = w
  emit_sent fd (d ∷ ds) w = emit_sent fd ds (emit D (datagram (datagram_sent fd d.0 d.1)) w)

  apply_datagrams : ℕ → UdpFlush → World D → Result (Option ℕ × World D)
  apply_datagrams r (datagrams_left sent_ds rest) w =
      let t = w.udp r in
      let left = record t {
        write_buf = rest;
        write_buf_dsize = t.write_buf_dsize - size sent_ds;
      } in
      ok (some (size sent_ds), emit_sent t.fd sent_ds (set_udp D r left w))
  apply_datagrams r (datagrams_failed sent_ds) w =
      let t = w.udp r in
      ok (
        none,
        emit_sent t.fd sent_ds (set_udp D r (record t { write_buf = []; write_buf_dsize = 0 }) w),
      )
  apply_datagrams r datagrams_starved w = starved

  unfoldable pub write : ℕ → List WriteResult → World D → Result (Option ℕ × World D)
  unfolding flush_datagrams apply_datagrams
  write r answers w =
      borrow_udp D r w >>= λ t. apply_datagrams r (flush_datagrams answers t.write_buf) w

  -- Whether the socket is to be closed.
  finish_write : ℕ → Option ℕ × World D → Result (Bool × World D)
  unfolding close_from_write_handle write_buf_size_decr
  finish_write r (none, w) = ok (close_from_write_handle D r true w)
  finish_write r (some written, w) = do
    w1 ← if ltb 0 written then write_buf_size_decr D r w else ok w
    t ← borrow_udp D r w1
    ok (if is_empty t.write_buf then close_from_write_handle D r false w1 else (false, w1))

  write_found : ℕ → List WriteResult → World D → Option ℕ → Result (World D)
  unfolding finish_write udp_socket_close
  write_found fd answers w none = panic unwrap_none
  write_found fd answers w (some r) = do
    out ← write r answers w
    (stream_close, w1) ← finish_write r out
    t ← borrow_udp D r w1
    w2 ← if is_empty t.write_buf then udp_socket_rem D fd writable w1 else ok w1
    ok (if stream_close then udp_socket_close D fd w2 else w2)

  -- `UDPWriteHandle::run`
  unfoldable pub run_write : ℕ → List WriteResult → World D → Result (World D)
  unfolding write_found
  run_write fd answers w = write_found fd answers w (get fd w.udp_transports)

  -- The loop of `UDPReadHandle::run`: an answer for each call.
  unfoldable pub read_datagrams : ℕ → ℕ → List RecvResult → World D → Result (World D)
  unfolding udp_socket_close
  read_datagrams fd r [] w = starved
  read_datagrams fd r (received bytes addr ∷ answers) w = borrow_udp D r w >>= λ _.
      read_datagrams fd r answers (emit D (datagram (datagram_received r bytes addr)) w)
  read_datagrams fd r (recv_interrupted ∷ answers) w =
      borrow_udp D r w >>= λ _. read_datagrams fd r answers w
  read_datagrams fd r (recv_would_block ∷ answers) w = borrow_udp D r w >>= λ _. ok w
  read_datagrams fd r (recv_failed ∷ answers) w =
      borrow_udp D r w >>= λ _. ok (udp_socket_close D fd (emit D (datagram (error_received r)) w))

  read_found : ℕ → List RecvResult → World D → Option ℕ → Result (World D)
  unfolding read_datagrams
  read_found fd answers w none = panic unwrap_none
  read_found fd answers w (some r) = read_datagrams fd r answers w

  unfoldable pub run_read : ℕ → List RecvResult → World D → Result (World D)
  unfolding read_found
  run_read fd answers w = read_found fd answers w (get fd w.udp_transports)
