-- ===== src/Tcp/ReadHandle/Closing.antt =====
-- What the read handle of src/tcp.rs makes of a stream that ends.
use tokioloop.Base.{
  subst, ◌∙◌, sym, ℕ, ==_refl, false, true, none, some, List, [], ◌∷◌, ◌++◌, ◌≡◌, refl, ap,
}
use tokioloop.Deps.{Deps, reads, writes}
use tokioloop.World.{
  World, TcpTransport, IoHandle, Effect, connection_lost, eof_received, Returns, Returns->>=,
  Returns-map,
}
use tokioloop.EventLoop.Watch.{expected, watched, is_stream_entry}
use tokioloop.Tcp.Close.{recv_eof, tcp_stream_close}
use tokioloop.Tcp.Close.Forget.{Forgets, tcp_stream_close-Forgets}
use tokioloop.Tcp.ReadHandle.{Round}
use tokioloop.Tcp.ReadHandle.Run.{read_rounds, end_read, run_found, run}
use tokioloop.Tcp.ReadHandle.Session.{Session, received, Heard, IsPassive, read_rounds-Heard}
use tokioloop.Tcp.WriteHandle.Frame.{losses}
use tokioloop.Tcp.ReadHandle.Eof.{Eof, recv_eof-Eof}

module _ (D : Deps) (react : ℕ → List ℕ → World D → World D) where
  open D use {get}

  -- The protocol has been given the bytes, then told of the end of the stream, then, once, that the
  -- connection is lost; the loop has no transport for `fd` and watches it for nothing.
  pub record Delivered (fd r : ℕ) (bytes : List ℕ) (w w' : World D) : Type 0 where
    pub told :
        (before : List Effect) × (w'.trace ≡ connection_lost r false ∷ eof_received r ∷ before)
        × (received r before ≡ received r w.trace ++ bytes)
        × (losses r before ≡ losses r w.trace)
    pub closing : (w'.tcp r).closing ≡ true
    pub gone : get fd w'.tcp_transports ≡ none
    pub no_read : reads (watched D fd w') ≡ false
    pub no_write : writes (watched D fd w') ≡ false

  end_read-Delivered :
      (fd r now : ℕ) (bytes : List ℕ) (w v : World D)
      → Heard D react r bytes w v
      → get fd w.tcp_transports ≡ some r
      → (w.tcp r).fd ≡ fd
      → (w.tcp r).closing ≡ false
      → (w.tcp r).borrowed ≡ false
      → (w.tcp r).tls_conn ≡ none
      → (w.tcp r).write_buf ≡ []
      → is_stream_entry (get fd w.handles_io) ≡ true
      → Returns (end_read D react fd r now false (true, v)) (Delivered fd r bytes w)
  unfolding end_read
  end_read-Delivered fd r now bytes w v h here same_fd first free plain empty entry =
      let same = ap (λ (f : ℕ → TcpTransport D). f r) h.tcp in
      let fd_v : (v.tcp r).fd ≡ fd = ap (λ (x : TcpTransport D). x.fd) same ∙ same_fd in
      Returns->>= (recv_eof D r now false v) _ (λ (close, u). (close ≡ true) × Eof D r v u)
        (Delivered fd r bytes w)
        (recv_eof-Eof D r now v (ap (λ (x : TcpTransport D). x.closing) same ∙ first)
          (ap (λ (x : TcpTransport D). x.borrowed) same ∙ free)
          (ap (λ (x : TcpTransport D). x.tls_conn) same ∙ plain)
          (ap (λ (x : TcpTransport D). x.write_buf) same ∙ empty)
          (ap (λ (f : ℕ). is_stream_entry (get f v.handles_io)) fd_v
            ∙ ap (λ (m : D.Map IoHandle). is_stream_entry (get fd m)) h.handles
            ∙ entry))
        λ n (close, e).
          let u = n.1 in
          rw close (
            Returns-map (tcp_stream_close D fd now u) (Forgets D fd u) (Delivered fd r bytes w)
              (tcp_stream_close-Forgets D fd now r u
                (ap (get fd) (e.same_transports ∙ h.transports) ∙ here)
                (ap (λ (x : TcpTransport D). x.borrowed)
                    (e.same_tcp ∙ ap (λ (x : TcpTransport D). record x { closing = true }) same)
                  ∙ free)
                (ap (λ (x : TcpTransport D). x.closing) e.same_tcp))
              λ w' f. record {
                told = (v.trace, f.trace ∙ e.trace, h.all, h.same_losses);
                closing =
                    ap (λ (g : ℕ → TcpTransport D). (g r).closing) f.tcp
                    ∙ ap (λ (x : TcpTransport D). x.closing) e.same_tcp;
                gone = f.forgotten fd ∙ rw (==_refl fd) refl;
                no_read =
                    ap (λ (m : D.Map IoHandle). reads (expected (get fd m))) f.handles_io
                    ∙ subst (λ k. reads (watched D k u) ≡ false) fd_v e.no_read;
                no_write =
                    ap (λ (m : D.Map IoHandle). writes (expected (get fd m))) f.handles_io
                    ∙ subst (λ k. writes (watched D k u) ≡ false) fd_v e.no_write;
              })

  -- The read handle of a transport `r` without TLS, whose protocol is unbuffered and changes nothing of
  -- the transport or of the loop's tables when it is given data, on rounds in which the peer sends the
  -- bytes and closes, returns. The transport is not closing, not borrowed, has nothing to write and is
  -- the loop's for its descriptor, which is free or a stream's, and `eof_received` does not ask to keep
  -- it open. The protocol is given all the bytes, in order, then told of the end of the stream, and then
  -- that the connection is lost, once and without an error. The transport is closing, and the loop has
  -- no transport for the descriptor and watches it for nothing.
  pub run-Delivered :
      (fd r now : ℕ) (rounds : List Round) (bytes : List ℕ) (w : World D)
      → IsPassive D react
      → Session rounds bytes
      → get fd w.tcp_transports ≡ some r
      → (w.tcp r).fd ≡ fd
      → (w.tcp r).closing ≡ false
      → (w.tcp r).borrowed ≡ false
      → (w.tcp r).proto_buffered ≡ false
      → (w.tcp r).tls_conn ≡ none
      → (w.tcp r).write_buf ≡ []
      → is_stream_entry (get fd w.handles_io) ≡ true
      → Returns (run D react fd now false rounds w) (Delivered fd r bytes w)
  unfolding run run_found
  run-Delivered fd r now rounds bytes w p s here same_fd first free direct plain empty entry =
      rw here (
        Returns->>= (read_rounds D react fd r rounds w) (end_read D react fd r now false)
          (λ (eof, v). (eof ≡ true) × Heard D react r bytes w v) (Delivered fd r bytes w)
          (read_rounds-Heard D react fd r rounds bytes w p (free, direct, plain) s)
          λ n (eof, h).
            subst (λ b. Returns (end_read D react fd r now false (b, n.1)) (Delivered fd r bytes w))
              (sym eof)
              (end_read-Delivered fd r now bytes w n.1 h here same_fd first free plain empty entry))
