-- ===== src/Tcp/WriteHandle/Finish.antt =====
-- How the write handle of src/tcp.rs ends a transport that is closing.
use tokioloop.Base.{
  ◌∙◌, sym, subst, ℕ, ◌-◌, ==_refl, ltb, if◌then◌else◌, false, true, none, some, List, [], ◌∷◌,
  ◌++◌, length, ◌≡◌, refl, ap, arith,
}
use tokioloop.Deps.{Deps, writes}
use tokioloop.World.{
  store_self, IoHandle, World, TcpTransport, Effect, connection_lost, sent, Returns, Returns-map,
  ok, set_tcp, emit, ◌>>=◌,
}
use tokioloop.EventLoop.Watch.{watched, is_stream_entry}
use tokioloop.Base.{join}
use tokioloop.Tcp.Close.{close_from_write_handle}
use tokioloop.Tcp.Write.{
  WriteResult, wrote, write_interrupted, would_block, write_failed, write_buf_size_decr,
}
use tokioloop.Tcp.WriteHandle.{flushed, flush, apply_flush, write}
use tokioloop.Tcp.WriteHandle.Bytes.{wire}
use tokioloop.Tcp.WriteHandle.Run.{after_flush, after_write, finish_run, run}
use tokioloop.Tcp.WriteHandle.Frame.{
  losses, write_buf_size_decr-SameButPause, Dropped, finish_run-Dropped, after_run, run-plain,
}

-- The socket takes every chunk whole, perhaps after interrupts.
abbrev pub TakesAll : List WriteResult → List (List ℕ) → Type 0
TakesAll answers [] = Unit {0}
TakesAll [] (chunk ∷ rest) = ⊥
TakesAll (wrote n ∷ answers) (chunk ∷ rest) = (n ≡ length chunk) × TakesAll answers rest
TakesAll (write_interrupted ∷ answers) (chunk ∷ rest) = TakesAll answers (chunk ∷ rest)
TakesAll (_ ∷ answers) (chunk ∷ rest) = ⊥

flush-TakesAll :
    (answers : List WriteResult) (chunks : List (List ℕ))
    → TakesAll answers chunks
    → flush answers chunks ≡ flushed (join chunks) []
unfolding flush
flush-TakesAll [] [] h = refl
flush-TakesAll (a ∷ answers) [] h = refl
flush-TakesAll [] (chunk ∷ rest) h = absurd h
flush-TakesAll (wrote n ∷ answers) (chunk ∷ rest) (full, h) =
    let whole : ltb n (length chunk) ≡ false = ground (arith, full) in
    rw whole (rw (flush-TakesAll answers rest h) refl)
flush-TakesAll (write_interrupted ∷ answers) (chunk ∷ rest) h =
    flush-TakesAll answers (chunk ∷ rest) h
flush-TakesAll (would_block ∷ answers) (chunk ∷ rest) h = absurd h
flush-TakesAll (write_failed ∷ answers) (chunk ∷ rest) h = absurd h

module _ (D : Deps) where
  open D use {get}

  -- The world after all the buffered bytes are written.
  abbrev drained : ℕ → World D → World D
  drained r w =
      let t = w.tcp r in
      emit D (sent t.fd (join t.write_buf)) (
        set_tcp D r
          (record t {
            write_buf = [];
            write_buf_dsize = t.write_buf_dsize - length (join t.write_buf);
          })
          w)

  write-drains :
      (r : ℕ) (answers : List WriteResult) (w : World D)
      → (w.tcp r).borrowed ≡ false
      → TakesAll answers (w.tcp r).write_buf
      → write D r answers w ≡ ok (some (length (join (w.tcp r).write_buf)), drained r w)
  unfolding write apply_flush
  write-drains r answers w free h = simp (free, flush-TakesAll answers (w.tcp r).write_buf h) refl

  -- All the bytes that were buffered are on the wire, then the protocol has been told that the connection
  -- is lost, without an error and once more than before, and the loop has dropped the transport.
  pub record Finished (fd r : ℕ) (w w' : World D) : Type 0 where
    pub told :
        (before : List Effect) × (w'.trace ≡ connection_lost r false ∷ before)
        × (wire fd before ≡ wire fd w.trace ++ join (w.tcp r).write_buf)
        × (losses r before ≡ losses r w.trace)
    pub gone : get fd w'.tcp_transports ≡ none
    pub no_write : writes (watched D fd w') ≡ false

  after_write-closing :
      (r now n : ℕ) (w : World D)
      → (w.tcp r).borrowed ≡ false
      → (w.tcp r).closing ≡ true
      → (w.tcp r).tls_pending_close ≡ false
      → (w.tcp r).write_buf ≡ []
      → after_write D r now (some n) w
        ≡ ok (
          some true,
          emit D (connection_lost r false) (if ltb 0 n then write_buf_size_decr D r w else w),
        )
  unfolding after_write after_flush close_from_write_handle
  after_write-closing r now n w free closing plain empty =
      let p = write_buf_size_decr-SameButPause D r (ltb 0 n) w in
      let same = p.same_tcp in
      simp
        (
          ap (λ (t : TcpTransport D). t.borrowed) same ∙ free,
          ap (λ (t : TcpTransport D). t.write_buf) same ∙ empty,
          ap (λ (t : TcpTransport D). t.tls_pending_close) same ∙ plain,
          ap (λ (t : TcpTransport D). t.closing) same ∙ closing,
        )
        refl

  -- The write handle of a transport `r` without TLS that is closing, when the socket takes all that is
  -- buffered, returns. The transport is not borrowed, is the loop's for its descriptor, and has no close
  -- alert pending; the descriptor is free or a stream's. The buffered bytes are then on the wire after
  -- those before, in order; after them `connection_lost` has been called, once and without an error,
  -- and it has not been called before them in the run; the loop has no transport for the descriptor and does not watch it for writing.
  pub run-Finished :
      (fd r now : ℕ) (answers : List WriteResult) (w : World D)
      → get fd w.tcp_transports ≡ some r
      → (w.tcp r).fd ≡ fd
      → (w.tcp r).borrowed ≡ false
      → (w.tcp r).closing ≡ true
      → (w.tcp r).tls_conn ≡ none
      → (w.tcp r).tls_pending_close ≡ false
      → is_stream_entry (get fd w.handles_io) ≡ true
      → TakesAll answers (w.tcp r).write_buf
      → Returns (run D fd now answers w) (Finished fd r w)
  run-Finished fd r now answers w here same_fd free closing plain no_alert entry all =
      let v = drained r w in
      let bytes = join (w.tcp r).write_buf in
      let n = length (join (w.tcp r).write_buf) in
      let t = record (w.tcp r) {
        write_buf = [];
        write_buf_dsize = (w.tcp r).write_buf_dsize - n;
      } in
      let self = store_self w.tcp r t in
      let p = write_buf_size_decr-SameButPause D r (ltb 0 n) v in
      let u = if ltb 0 n then write_buf_size_decr D r v else v in
      let same : u.tcp r ≡ record t { proto_paused = p.flag } =
        p.same_tcp ∙ ap (λ (x : TcpTransport D). record x { proto_paused = p.flag }) self in
      let free_v = ap (λ (x : TcpTransport D). x.borrowed) self ∙ free in
      let closing_v = ap (λ (x : TcpTransport D). x.closing) self ∙ closing in
      let empty_v = ap (λ (x : TcpTransport D). x.write_buf) self in
      let plain_v = ap (λ (x : TcpTransport D). x.tls_pending_close) self ∙ no_alert in
      let ends : run D fd now answers w
          ≡ finish_run D fd r now (some true, emit D (connection_lost r false) u) =
        run-plain D fd r now answers w here free plain
        ∙ ap (λ m. m >>= after_run D fd r now) (write-drains r answers w free all)
        ∙ ap (λ m. m >>= finish_run D fd r now)
            (after_write-closing r now n v free_v closing_v plain_v empty_v) in
      rw ends (
        Returns-map (finish_run D fd r now (some true, emit D (connection_lost r false) u))
          (Dropped D fd (emit D (connection_lost r false) u)) (Finished fd r w)
          (finish_run-Dropped D fd r now (emit D (connection_lost r false) u)
            (ap (λ (x : TcpTransport D). x.borrowed) same ∙ free)
            (ap (λ (x : TcpTransport D). x.closing) same ∙ closing)
            (ap (λ (x : TcpTransport D). x.write_buf) same) (ap (get fd) p.same_transports ∙ here)
            (ap (λ (m : D.Map IoHandle). is_stream_entry (get fd m)) p.same_handles ∙ entry))
          λ w' d. record {
            told = (
              u.trace,
              d.trace,
              p.same_wire fd
                  ∙ subst (λ f. wire fd (sent f bytes ∷ w.trace) ≡ wire fd w.trace ++ bytes)
                      (sym same_fd) (rw (==_refl fd) refl),
              p.same_losses,
            );
            gone = d.gone;
            no_write = d.no_write;
          })
