-- ===== src/Tcp/ReadHandle/Eof.antt =====
-- The end of a stream: recv_eof and close_from_read_handle of src/tcp.rs without TLS.
use tokioloop.Base.{subst, ◌∙◌, sym, ℕ, false, true, none, List, [], ◌∷◌, ◌≡◌, refl, ap, arith}
use tokioloop.Deps.{Deps, readable, writable, reads, writes}
use tokioloop.World.{
  store_self, World, TcpTransport, Effect, connection_lost, eof_received, Returns, Returns->>=,
  Returns-map, ok, emit, set_tcp, ◌>>=◌,
}
use tokioloop.EventLoop.Watch.{watched, Takes, is_stream_entry}
use tokioloop.EventLoop.Streams.{tcp_stream_rem}
use tokioloop.EventLoop.Streams.Sync.{tcp_stream_rem-Takes}
use tokioloop.Base.{◌&&◌, if◌then◌else◌}
use tokioloop.Tcp.Close.{borrow, is_some, call_conn_lost, recv_eof, close_from_read_handle}

module _ (D : Deps) where
  open D use {get}

  -- The protocol has been told of the end of the stream, then that the connection is lost; the transport
  -- is closing and nothing is watched for its descriptor.
  pub record Eof (r : ℕ) (w w' : World D) : Type 0 where
    pub same_tcp : w'.tcp r ≡ record (w.tcp r) { closing = true }
    pub same_transports : w'.tcp_transports ≡ w.tcp_transports
    pub trace : w'.trace ≡ connection_lost r false ∷ eof_received r ∷ w.trace
    pub no_read : reads (watched D (w.tcp r).fd w') ≡ false
    pub no_write : writes (watched D (w.tcp r).fd w') ≡ false

  -- What `close_from_read_handle` leaves.
  record ClosedByRead (r : ℕ) (w w' : World D) : Type 0 where
    pub same_tcp : w'.tcp r ≡ record (w.tcp r) { closing = true }
    pub same_transports : w'.tcp_transports ≡ w.tcp_transports
    pub trace : w'.trace ≡ connection_lost r false ∷ w.trace
    pub same_read : reads (watched D (w.tcp r).fd w') ≡ reads (watched D (w.tcp r).fd w)
    pub no_write : writes (watched D (w.tcp r).fd w') ≡ false

  close_from_read_handle-plain :
      (r now : ℕ) (w : World D)
      → (w.tcp r).closing ≡ false
      → (w.tcp r).borrowed ≡ false
      → (w.tcp r).tls_conn ≡ none
      → (w.tcp r).write_buf ≡ []
      → close_from_read_handle D r now w ≡ (
          tcp_stream_rem D
            (w.tcp r).fd
            writable
            (set_tcp D r (record (w.tcp r) { closing = true }) w)
          >>= λ w2. ok (true, emit D (connection_lost r false) w2))
  unfolding close_from_read_handle
  close_from_read_handle-plain r now w first free plain empty =
      let here = store_self w.tcp r (record (w.tcp r) { closing = true }) in
      simp
        (
          first,
          ap (λ (x : TcpTransport D). x.borrowed) here ∙ free,
          ap (λ (x : TcpTransport D). x.tls_conn) here ∙ plain,
          ap (λ (x : TcpTransport D). x.write_buf) here ∙ empty,
        )
        refl

  close_from_read_handle-Closed :
      (r now : ℕ) (w : World D)
      → (w.tcp r).closing ≡ false
      → (w.tcp r).borrowed ≡ false
      → (w.tcp r).tls_conn ≡ none
      → (w.tcp r).write_buf ≡ []
      → is_stream_entry (get (w.tcp r).fd w.handles_io) ≡ true
      → Returns
          (close_from_read_handle D r now w)
          (λ (close, w'). (close ≡ true) × ClosedByRead r w w')
  close_from_read_handle-Closed r now w first free plain empty entry =
      let t = record (w.tcp r) { closing = true } in
      let w1 = set_tcp D r t w in
      rw (close_from_read_handle-plain r now w first free plain empty) (
        Returns->>= (tcp_stream_rem D (w.tcp r).fd writable w1) _ (Takes D (w.tcp r).fd writable w1)
          (λ (close, w'). (close ≡ true) × ClosedByRead r w w')
          (tcp_stream_rem-Takes D (w.tcp r).fd writable w1 entry (λ e. absurd (ground (e, arith))))
          λ w2 a. (
            refl,
            record {
              same_tcp = ap (λ (f : ℕ → TcpTransport D). f r) a.rest.tcp ∙ store_self w.tcp r t;
              same_transports = a.rest.tcp_transports;
              trace = ap (λ (es : List Effect). connection_lost r false ∷ es) a.rest.trace;
              same_read = ground (arith, a.read);
              no_write = ground (arith, a.write);
            },
          ))

  -- What `recv_eof` does after the callback.
  eof_rest :
      (r now : ℕ) (v : World D)
      → (v.tcp r).borrowed ≡ false
      → (v.tcp r).tls_conn ≡ none
      → (borrow D r v >>= λ t.
          if is_some t.tls_conn && t.tls_close_sent
          then (call_conn_lost D r now false v >>= λ w3. ok (true, w3))
          else close_from_read_handle D r now v)
        ≡ close_from_read_handle D r now v
  eof_rest r now v free plain = simp (free, plain) refl

  -- `recv_eof` where `eof_received` does not ask to keep the transport open.
  pub recv_eof-Eof :
      (r now : ℕ) (w : World D)
      → (w.tcp r).closing ≡ false
      → (w.tcp r).borrowed ≡ false
      → (w.tcp r).tls_conn ≡ none
      → (w.tcp r).write_buf ≡ []
      → is_stream_entry (get (w.tcp r).fd w.handles_io) ≡ true
      → Returns (recv_eof D r now false w) (λ (close, w'). (close ≡ true) × Eof r w w')
  unfolding recv_eof
  recv_eof-Eof r now w first free plain empty entry =
      Returns->>= (tcp_stream_rem D (w.tcp r).fd readable w) _ (Takes D (w.tcp r).fd readable w) _
        (tcp_stream_rem-Takes D (w.tcp r).fd readable w entry (λ e. absurd (ground (e, arith))))
        λ w1 a.
          let same = ap (λ (f : ℕ → TcpTransport D). f r) a.rest.tcp in
          let v = emit D (eof_received r) w1 in
          subst (λ m. Returns m (λ (close, w'). (close ≡ true) × Eof r w w'))
            (sym (
              eof_rest r now v (ap (λ (x : TcpTransport D). x.borrowed) same ∙ free)
                (ap (λ (x : TcpTransport D). x.tls_conn) same ∙ plain)))
            (let fd_v = ap (λ (x : TcpTransport D). x.fd) same in
              Returns-map (close_from_read_handle D r now v)
                (λ (close, w'). (close ≡ true) × ClosedByRead r v w')
                (λ (close, w'). (close ≡ true) × Eof r w w')
                (close_from_read_handle-Closed r now v
                  (ap (λ (x : TcpTransport D). x.closing) same ∙ first)
                  (ap (λ (x : TcpTransport D). x.borrowed) same ∙ free)
                  (ap (λ (x : TcpTransport D). x.tls_conn) same ∙ plain)
                  (ap (λ (x : TcpTransport D). x.write_buf) same ∙ empty)
                  (ap (λ (f : ℕ). is_stream_entry (get f w1.handles_io)) fd_v ∙ a.streams entry))
                λ n (e, c). (
                  e,
                  record {
                    same_tcp =
                        c.same_tcp ∙ ap (λ (x : TcpTransport D). record x { closing = true }) same;
                    same_transports = c.same_transports ∙ a.rest.tcp_transports;
                    trace =
                        c.trace
                        ∙ ap (λ (es : List Effect). connection_lost r false ∷ eof_received r ∷ es)
                            a.rest.trace;
                    no_read =
                        subst (λ f. reads (watched D f n.1) ≡ reads (watched D f w1)) fd_v
                          c.same_read
                        ∙ ground (arith, a.read);
                    no_write = subst (λ f. writes (watched D f n.1) ≡ false) fd_v c.no_write;
                  },
                ))
