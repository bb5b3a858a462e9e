-- ===== src/Tcp/WriteHandle/Pending.antt =====
-- The close alert that the write handle of src/tcp.rs sends once the buffer is empty.
use tokioloop.Base.{
  ◌∙◌, subst, Option, ℕ, ltb, if◌then◌else◌, false, true, none, some, List, [], ◌≡◌, refl, ap,
  arith, Bool-cases, inl, inr,
}
use tokioloop.Deps.{Deps, writes}
use tokioloop.World.{
  IoHandle, World, TcpTransport, Returns, Returns-map, Result, Ensures, ok, ◌>>=◌,
}
use tokioloop.EventLoop.Watch.{watched, is_stream_entry}
use tokioloop.Tcp.Close.{send_close_alert, is_empty, bytes_or_none}
use tokioloop.Tcp.Write.{WriteResult, write_buf_size_decr}
use tokioloop.Tcp.WriteHandle.Keeps.{Keeps, write_with_tls-Keeps}
use tokioloop.Tcp.WriteHandle.Frame.{
  after_run, losses, write_buf_size_decr-SameButPause, Dropped, finish_run-Dropped,
}
use tokioloop.Tcp.WriteHandle.Run.{
  after_write, after_flush, send_pending_alert, finish_run, run_found, run, write_buffer,
}
use tokioloop.Tcp.WriteHandle.Tls.{write_with_tls}

module _ (D : Deps) where
  open D use {get, Conn, write_tls, send_close_notify}

  -- The alert is sent, and the transport is as before but for the notes of it.
  record Alerted (r : ℕ) (w w' : World D) : Type 0 where
    pub same_handles : w'.handles_io ≡ w.handles_io
    pub same_transports : w'.tcp_transports ≡ w.tcp_transports
    pub same_losses : losses r w'.trace ≡ losses r w.trace
    pub sent_alert : (w'.tcp r).tls_close_sent ≡ true
    pub not_pending : (w'.tcp r).tls_pending_close ≡ false
    pub borrowed : (w'.tcp r).borrowed ≡ (w.tcp r).borrowed
    pub closing : (w'.tcp r).closing ≡ (w.tcp r).closing
    pub write_buf : (w'.tcp r).write_buf ≡ (w.tcp r).write_buf

  send_pending_alert-Alerted :
      (r now : ℕ) (conn : Conn) (w : World D)
      → Alerted r w (send_pending_alert D r now w (some conn))
  unfolding send_pending_alert send_close_alert
  send_pending_alert-Alerted r now conn w =
      elim (Bool-cases (is_empty (bytes_or_none D (write_tls (send_close_notify conn)).0))) [
        | inl nothing ↦ simp nothing (record {
          same_handles = refl;
          same_transports = refl;
          same_losses = refl;
          sent_alert = ground arith;
          not_pending = ground arith;
          borrowed = ground arith;
          closing = ground arith;
          write_buf = ground arith;
        })
        | inr records ↦ simp records (record {
          same_handles = refl;
          same_transports = refl;
          same_losses = refl;
          sent_alert = ground arith;
          not_pending = ground arith;
          borrowed = ground arith;
          closing = ground arith;
          write_buf = ground arith;
        })
      ]

  -- The world in which the buffer is looked at, after a write of `n` bytes.
  abbrev counted : ℕ → ℕ → World D → World D
  counted r n v = if ltb 0 n then write_buf_size_decr D r v else v

  after_write-pending :
      (r now n : ℕ) (conn : Conn) (v : World D)
      → (v.tcp r).borrowed ≡ false
      → (v.tcp r).tls_conn ≡ some conn
      → (v.tcp r).tls_pending_close ≡ true
      → (v.tcp r).write_buf ≡ []
      → after_write D r now (some n) v
        ≡ ok (some true, send_pending_alert D r now (counted r n v) (some conn))
  unfolding after_write after_flush
  after_write-pending r now n conn v free tls pending empty =
      let same = (write_buf_size_decr-SameButPause D r (ltb 0 n) v).same_tcp in
      simp
        (
          ap (λ (t : TcpTransport D). t.borrowed) same ∙ free,
          ap (λ (t : TcpTransport D). t.write_buf) same ∙ empty,
          ap (λ (t : TcpTransport D). t.tls_pending_close) same ∙ pending,
          ap (λ (t : TcpTransport D). t.tls_conn) same ∙ tls,
        )
        refl

  run-tls :
      (fd r now : ℕ) (conn : Conn) (answers : List WriteResult) (w : World D)
      → get fd w.tcp_transports ≡ some r
      → (w.tcp r).borrowed ≡ false
      → (w.tcp r).tls_conn ≡ some conn
      → (w.tcp r).tls_close_sent ≡ false
      → run D fd now answers w ≡ (write_with_tls D r conn answers w >>= after_run D fd r now)
  unfolding run run_found write_buffer
  run-tls fd r now conn answers w here free tls unsent = simp (here, free, tls, unsent) refl

  run-written :
      (fd r now n : ℕ) (conn conn' : Conn) (answers : List WriteResult) (w v : World D)
      → get fd w.tcp_transports ≡ some r
      → (w.tcp r).borrowed ≡ false
      → (w.tcp r).tls_conn ≡ some conn
      → (w.tcp r).tls_close_sent ≡ false
      → write_with_tls D r conn answers w ≡ ok (some n, v)
      → get fd v.tcp_transports ≡ some r
      → (v.tcp r).borrowed ≡ false
      → (v.tcp r).closing ≡ true
      → (v.tcp r).tls_conn ≡ some conn'
      → (v.tcp r).tls_pending_close ≡ true
      → (v.tcp r).write_buf ≡ []
      → is_stream_entry (get fd v.handles_io) ≡ true
      → Returns (run D fd now answers w) (λ w'.
        (losses r w'.trace ≡ losses r v.trace)
        × (get fd w'.tcp_transports ≡ none)
        × (writes (watched D fd w') ≡ false))
  run-written fd r now n conn conn' answers w v here_w free_w tls_w unsent e here free closing tls
        pending empty entry =
      let p = write_buf_size_decr-SameButPause D r (ltb 0 n) v in
      let u = counted r n v in
      let s = send_pending_alert D r now u (some conn') in
      let a = send_pending_alert-Alerted r now conn' u in
      let ends : run D fd now answers w ≡ finish_run D fd r now (some true, s) =
        run-tls fd r now conn answers w here_w free_w tls_w unsent
        ∙ ap (λ m. m >>= after_run D fd r now) e
        ∙ ap (λ m. m >>= finish_run D fd r now)
            (after_write-pending r now n conn' v free tls pending empty) in
      rw ends (
        Returns-map (finish_run D fd r now (some true, s)) (Dropped D fd s) _
          (finish_run-Dropped D fd r now s
            (a.borrowed ∙ ap (λ (t : TcpTransport D). t.borrowed) p.same_tcp ∙ free)
            (a.closing ∙ ap (λ (t : TcpTransport D). t.closing) p.same_tcp ∙ closing)
            (a.write_buf ∙ ap (λ (t : TcpTransport D). t.write_buf) p.same_tcp ∙ empty)
            (ap (get fd) (a.same_transports ∙ p.same_transports) ∙ here)
            (ap (λ (m : D.Map IoHandle). is_stream_entry (get fd m))
                (a.same_handles ∙ p.same_handles)
              ∙ entry))
          λ w' d. (ap (losses r) d.trace ∙ a.same_losses ∙ p.same_losses, d.gone, d.no_write))

  -- The write handle of a transport with TLS that is closing, with a close alert pending that has not been
  -- sent, when the write returns without an error and leaves an empty buffer, returns. The transport
  -- is not borrowed, is the loop's for its descriptor, and its descriptor is free or a stream's. The loop
  -- then has no transport for the descriptor and does not watch it for writing, but `connection_lost` has
  -- been called no more often than before the handle ran: it does not tell the protocol.
  pub run-untold :
      (fd r now n : ℕ) (conn : Conn) (answers : List WriteResult) (w v : World D)
      → get fd w.tcp_transports ≡ some r
      → (w.tcp r).borrowed ≡ false
      → (w.tcp r).closing ≡ true
      → (w.tcp r).tls_conn ≡ some conn
      → (w.tcp r).tls_close_sent ≡ false
      → (w.tcp r).tls_pending_close ≡ true
      → is_stream_entry (get fd w.handles_io) ≡ true
      → write_with_tls D r conn answers w ≡ ok (some n, v)
      → (v.tcp r).write_buf ≡ []
      → Returns (run D fd now answers w) (λ w'.
        (losses r w'.trace ≡ losses r w.trace)
        × (get fd w'.tcp_transports ≡ none)
        × (writes (watched D fd w') ≡ false))
  run-untold fd r now n conn answers w v here free closing tls unsent pending entry e empty =
      let k : Keeps D r w v =
        subst (λ (m : Result (Option ℕ × World D)). Ensures m (λ x. Keeps D r w x.1)) e
          (write_with_tls-Keeps D r conn answers w free) in
      Returns-map (run D fd now answers w) _ _
        (run-written fd r now n conn k.connection.0 answers w v here free tls unsent e
          (ap (get fd) k.same_transports ∙ here) (k.borrowed ∙ free) (k.closing ∙ closing)
          k.connection.1 (k.pending ∙ pending) empty
          (ap (λ (m : D.Map IoHandle). is_stream_entry (get fd m)) k.same_handles ∙ entry))
        λ w' h. (h.0 ∙ k.same_losses, h.1, h.2)
