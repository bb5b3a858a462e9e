-- ===== src/Tcp/WriteHandle/Timeout.antt =====
-- How the write handle of src/tcp.rs ends a transport with TLS that is closing.
use tokioloop.Base.{
  ◌∙◌, ℕ, ◌*◌, ◌-◌, ◌<◌, ==_refl, ltb, false, true, none, some, List, ◌∷◌, ◌≡◌, refl, ap, arith,
}
use tokioloop.Deps.{Deps, readable, writable, reads, writes}
use tokioloop.World.{
  World, TcpTransport, Effect, connection_lost, Returns, Returns->>=, Returns-map, emit,
}
use tokioloop.EventLoop.Watch.{watched, Takes, Takes-both, Unwatched, is_stream_entry}
use tokioloop.EventLoop.Streams.{tcp_stream_rem}
use tokioloop.EventLoop.Streams.Sync.{tcp_stream_rem-Takes}
use tokioloop.Tcp.Close.{call_conn_lost, tcp_stream_close}
use tokioloop.Tcp.Close.Forget.{Forgets, tcp_stream_close-Forgets}
use tokioloop.Tcp.Write.{WriteResult}
use tokioloop.Tcp.WriteHandle.Run.{force_close, run_found, run}

module _ (D : Deps) where
  open D use {get, Conn}

  -- The protocol has been told that the connection is lost, and nothing else has been done for a
  -- transport; the loop has no transport for `fd` and does not watch it.
  pub record Forced (fd r : ℕ) (w w' : World D) : Type 0 where
    pub same_tcp : w'.tcp ≡ w.tcp
    pub trace : w'.trace ≡ connection_lost r false ∷ w.trace
    pub gone : get fd w'.tcp_transports ≡ none
    pub no_read : reads (watched D fd w') ≡ false
    pub no_write : writes (watched D fd w') ≡ false

  call_conn_lost-Forced :
      (fd r now : ℕ) (w v : World D)
      → Unwatched D fd w v
      → get fd w.tcp_transports ≡ some r
      → (w.tcp r).fd ≡ fd
      → (w.tcp r).borrowed ≡ false
      → (w.tcp r).closing ≡ true
      → Returns (call_conn_lost D r now false v) (Forced fd r w)
  unfolding call_conn_lost
  call_conn_lost-Forced fd r now w v a here same_fd free closing =
      let same = ap (λ (f : ℕ → TcpTransport D). f r) a.rest.tcp in
      let v' = emit D (connection_lost r false) v in
      let fd_v : (v.tcp r).fd ≡ fd = ap (λ (t : TcpTransport D). t.fd) same ∙ same_fd in
      rw (fd_v) (
        Returns-map (tcp_stream_close D fd now v') (Forgets D fd v') (Forced fd r w)
          (tcp_stream_close-Forgets D fd now r v' (ap (get fd) a.rest.tcp_transports ∙ here)
            (ap (λ (t : TcpTransport D). t.borrowed) same ∙ free)
            (ap (λ (t : TcpTransport D). t.closing) same ∙ closing))
          λ u f. record {
            same_tcp = f.tcp ∙ a.rest.tcp;
            trace = f.trace ∙ ap (λ (es : List Effect). connection_lost r false ∷ es) a.rest.trace;
            gone = f.forgotten fd ∙ rw (==_refl fd) refl;
            no_read = ground (arith, f.handles_io, a.read);
            no_write = ground (arith, f.handles_io, a.write);
          })

  force_close-Forced :
      (fd r now : ℕ) (w : World D)
      → get fd w.tcp_transports ≡ some r
      → (w.tcp r).fd ≡ fd
      → (w.tcp r).borrowed ≡ false
      → (w.tcp r).closing ≡ true
      → is_stream_entry (get fd w.handles_io) ≡ true
      → Returns (force_close D fd r now w) (Forced fd r w)
  unfolding force_close
  force_close-Forced fd r now w here same_fd free closing entry =
      Returns->>= (tcp_stream_rem D fd readable w) _ (Takes D fd readable w) (Forced fd r w)
        (tcp_stream_rem-Takes D fd readable w entry (λ e. absurd (ground (e, arith))))
        λ w1 a.
          Returns->>= (tcp_stream_rem D fd writable w1) _ (Takes D fd writable w1) (Forced fd r w)
            (tcp_stream_rem-Takes D fd writable w1 (a.streams entry)
              (λ e. absurd (ground (e, arith))))
            λ w2 b.
              call_conn_lost-Forced fd r now w w2 (Takes-both D fd w w1 w2 a b) here same_fd free
                closing

  -- The write handle of a transport with TLS that is closing and has sent its close alert longer ago than
  -- its timeout, in milliseconds, returns. The transport is not borrowed and is the loop's for its
  -- descriptor, which is free or a stream's. Whatever is buffered, nothing more is written:
  -- `connection_lost` is called, once and without an error, the loop has no transport for the descriptor
  -- and watches it neither for reading nor for writing.
  pub run-overdue :
      (fd r now at : ℕ) (conn : Conn) (answers : List WriteResult) (w : World D)
      → get fd w.tcp_transports ≡ some r
      → (w.tcp r).fd ≡ fd
      → (w.tcp r).borrowed ≡ false
      → (w.tcp r).closing ≡ true
      → (w.tcp r).tls_conn ≡ some conn
      → (w.tcp r).tls_close_sent ≡ true
      → (w.tcp r).tls_close_sent_time ≡ some at
      → (w.tcp r).ssl_close_timeout * 1000 < now - at
      → is_stream_entry (get fd w.handles_io) ≡ true
      → Returns (run D fd now answers w) (Forced fd r w)
  unfolding run run_found
  run-overdue fd r now at conn answers w here same_fd free closing tls told at_time past entry =
      let is_late : ltb ((w.tcp r).ssl_close_timeout * 1000) (now - at) ≡ true =
        ground (arith, past) in
      simp (here, free, tls, told, at_time, is_late)
        (force_close-Forced fd r now w here same_fd free closing entry)
