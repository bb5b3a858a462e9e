-- ===== src/Udp/Transport/Closing.antt =====
-- What `sendto` and `close` of src/udp.rs do on a transport with nothing buffered.
use tokioloop.Base.{
  ◌∙◌, ℕ, ◌==◌, ==_refl, if◌then◌else◌, false, true, some, List, ◌∷◌, ◌≡◌, ap, arith,
}
use tokioloop.Deps.{Deps, readable, writable, reads, writes}
use tokioloop.World.{
  Returns->>=, store_self, World, datagram_lost, datagram, UdpTransport, Effect, Returns, ok, panic,
  already_borrowed, set_udp, ◌>>=◌,
}
use tokioloop.EventLoop.Watch.{watched, IsSynced, Takes, Takes-both, Unwatched, is_socket_entry}
use tokioloop.EventLoop.Sockets.{udp_socket_rem}
use tokioloop.EventLoop.Sockets.Sync.{udp_socket_rem-Takes}
use tokioloop.Tcp.Close.{is_empty}
use tokioloop.Tcp.Write.{WriteResult}
use tokioloop.Udp.Transport.{conn_lost, borrow_udp, close, sendto, write, write_to}

module _ (D : Deps) where
  open D use {get}

  -- `sendto` of some bytes to a numeric address, on a transport that is not closing and has nothing
  -- buffered, panics: `write` borrows mutably the state that it borrows again for the socket.
  sendto_panics :
      (r : ℕ) (bytes : List ℕ) (addr : ℕ) (answer : WriteResult) (w : World D)
      → (w.udp r).closing ≡ false
      → is_empty bytes ≡ false
      → (w.udp r).borrowed ≡ false
      → (w.udp r).write_buf_dsize ≡ 0
      → sendto D r bytes (some (some addr)) answer w ≡ panic already_borrowed
  unfolding sendto write write_to
  sendto_panics r bytes addr answer w open_end some_bytes free nothing =
      ground (open_end, some_bytes, free, nothing, ==_refl r, arith)

  -- The transport `r` is closing, the protocol has been told so once, without an error, nothing is
  -- watched for its descriptor, and other descriptors are watched as before.
  pub record Closed (r : ℕ) (w w' : World D) : Type 0 where
    pub closing : (w'.udp r).closing ≡ true
    pub trace : w'.trace ≡ datagram (datagram_lost r false) ∷ w.trace
    pub no_read : reads (watched D (w.udp r).fd w') ≡ false
    pub no_write : writes (watched D (w.udp r).fd w') ≡ false
    pub others : (j : ℕ) → ((w.udp r).fd == j) ≡ false → get j w'.handles_io ≡ get j w.handles_io
    pub synced : IsSynced D w → IsSynced D w'

  Unwatched-Closed :
      (r : ℕ) (w v : World D)
      → Unwatched D (w.udp r).fd (set_udp D r (record (w.udp r) { closing = true }) w) v
      → Closed r w (conn_lost D r false v)
  Unwatched-Closed r w v u =
      let here = store_self w.udp r (record (w.udp r) { closing = true }) in
      record {
        closing =
            ap (λ (f : ℕ → UdpTransport). (f r).closing) u.rest.udp
            ∙ ap (λ (t : UdpTransport). t.closing) here;
        trace = ap (λ (es : List Effect). datagram (datagram_lost r false) ∷ es) u.rest.trace;
        no_read = u.read;
        no_write = u.write;
        others = u.others;
        synced = u.synced;
      }

  -- `close` of a transport that is not closing, has nothing buffered, is not borrowed and whose
  -- descriptor is free or a datagram socket's returns. The transport is then closing, `connection_lost`
  -- has been called once and without an error, and nothing is watched for the descriptor. Other
  -- descriptors are watched as before, and the loop's table agrees with the poll if it did before.
  pub close-Ends :
      (r : ℕ) (w : World D)
      → (w.udp r).closing ≡ false
      → (w.udp r).borrowed ≡ false
      → (w.udp r).write_buf_dsize ≡ 0
      → is_socket_entry (get (w.udp r).fd w.handles_io) ≡ true
      → Returns (close D r w) (Closed r w)
  unfolding close
  close-Ends r w first free nothing entry =
      let t = w.udp r in
      let w0 = set_udp D r (record t { closing = true }) w in
      let here = store_self w.udp r (record t { closing = true }) in
      rw first (
        Returns->>= (udp_socket_rem D t.fd readable w0)
          (λ w1. borrow_udp D r w1 >>= λ t1.
            if t1.write_buf_dsize == 0
            then (udp_socket_rem D t.fd writable w1 >>= λ w2. ok (conn_lost D r false w2))
            else ok w1)
          (Takes D t.fd readable w0) (Closed r w)
          (udp_socket_rem-Takes D t.fd readable w0 entry (λ e. absurd (ground (e, arith))))
          λ w1 a.
            let kept = ap (λ (f : ℕ → UdpTransport). f r) a.rest.udp ∙ here in
            rw
              (
                ap (λ (x : UdpTransport). x.borrowed) kept ∙ free,
                ap (λ (x : UdpTransport). x.write_buf_dsize) kept ∙ nothing,
              )
              (Returns->>= (udp_socket_rem D t.fd writable w1) (λ w2. ok (conn_lost D r false w2))
                (Takes D t.fd writable w1) (Closed r w)
                (udp_socket_rem-Takes D t.fd writable w1 (a.sockets entry)
                  (λ e. absurd (ground (e, arith))))
                λ w2 b. Unwatched-Closed r w w2 (Takes-both D t.fd w0 w1 w2 a b)))
