-- ===== src/Tcp/WriteHandle/Frame.antt =====
-- What the parts of the write handle's `run` of src/tcp.rs leave as it was.
use tokioloop.Base.{
  ◌==◌, suc, ◌∙◌, ℕ, ==_refl, leb, if◌then◌else◌, Bool, false, true, ◌&&◌, Option, none, some, List,
  [], ◌∷◌, ◌≡◌, refl, ap, arith, Bool-cases, inl, inr,
}
use tokioloop.Deps.{Deps, writable, reads, writes}
use tokioloop.World.{
  store_self, World, TcpTransport, Effect, connection_made, connection_lost, pause_writing,
  resume_writing, data_received, eof_received, sent, tls_written, shutdown_write, datagram, Returns,
  Returns->>=, Returns-map, Result, ◌>>=◌,
}
use tokioloop.EventLoop.Watch.{watched, Takes, is_stream_entry}
use tokioloop.EventLoop.Streams.{tcp_stream_rem}
use tokioloop.EventLoop.Streams.Sync.{tcp_stream_rem-Takes}
use tokioloop.Tcp.Close.{tcp_stream_close}
use tokioloop.Tcp.Close.Forget.{Forgets, tcp_stream_close-Forgets}
use tokioloop.Tcp.Write.{WriteResult, write_buf_size_decr}
use tokioloop.Tcp.WriteHandle.{write}
use tokioloop.Tcp.WriteHandle.Bytes.{wire}
use tokioloop.Tcp.WriteHandle.Run.{
  after_write, finish_stream, finish_run, write_buffer, run_found, run,
}

-- How often the protocol of `r` has been told that the connection is lost.
abbrev pub losses : ℕ → List Effect → ℕ
losses r [] = 0
losses r (connection_lost q _ ∷ es) = if q == r then suc (losses r es) else losses r es
losses r (connection_made _ ∷ es) = losses r es
losses r (pause_writing _ ∷ es) = losses r es
losses r (resume_writing _ ∷ es) = losses r es
losses r (data_received _ _ ∷ es) = losses r es
losses r (eof_received _ ∷ es) = losses r es
losses r (sent _ _ ∷ es) = losses r es
losses r (tls_written _ _ ∷ es) = losses r es
losses r (shutdown_write _ ∷ es) = losses r es
losses r (datagram _ ∷ es) = losses r es

module _ (D : Deps) where
  open D use {get}

  -- Two worlds that differ at most in whether the protocol of `r` is paused, and in that it was told.
  pub record SameButPause (r : ℕ) (w w' : World D) : Type 0 where
    pub flag : Bool
    pub same_tcp : w'.tcp r ≡ record (w.tcp r) { proto_paused = flag }
    pub same_handles : w'.handles_io ≡ w.handles_io
    pub same_transports : w'.tcp_transports ≡ w.tcp_transports
    pub same_wire : (fd : ℕ) → wire fd w'.trace ≡ wire fd w.trace
    pub same_losses : losses r w'.trace ≡ losses r w.trace

  pub write_buf_size_decr-SameButPause :
      (r : ℕ) (b : Bool) (w : World D)
      → SameButPause r w (if b then write_buf_size_decr D r w else w)
  unfolding write_buf_size_decr
  write_buf_size_decr-SameButPause r false w = record {
    flag = (w.tcp r).proto_paused;
    same_tcp = refl;
    same_handles = refl;
    same_transports = refl;
    same_wire = λ fd. refl;
    same_losses = refl;
  }
  write_buf_size_decr-SameButPause r true w =
      elim (Bool-cases
        (leb (w.tcp r).write_buf_dsize (w.tcp r).water_lo && (w.tcp r).proto_paused)) [
          | inl resumes ↦ rw resumes (record {
            flag = false;
            same_tcp = store_self w.tcp r (record (w.tcp r) { proto_paused = false });
            same_handles = refl;
            same_transports = refl;
            same_wire = λ fd. refl;
            same_losses = refl;
          })
          | inr stays ↦ rw stays (record {
            flag = (w.tcp r).proto_paused;
            same_tcp = refl;
            same_handles = refl;
            same_transports = refl;
            same_wire = λ fd. refl;
            same_losses = refl;
          })
        ]

  -- The loop has no transport for `fd`, and does not watch it for writing.
  pub record Dropped (fd : ℕ) (w w' : World D) : Type 0 where
    pub trace : w'.trace ≡ w.trace
    pub gone : get fd w'.tcp_transports ≡ none
    pub no_write : writes (watched D fd w') ≡ false
    pub read : reads (watched D fd w') ≡ reads (watched D fd w)

  pub finish_run-Dropped :
      (fd r now : ℕ) (w : World D)
      → (w.tcp r).borrowed ≡ false
      → (w.tcp r).closing ≡ true
      → (w.tcp r).write_buf ≡ []
      → get fd w.tcp_transports ≡ some r
      → is_stream_entry (get fd w.handles_io) ≡ true
      → Returns (finish_run D fd r now (some true, w)) (Dropped fd w)
  unfolding finish_run finish_stream
  finish_run-Dropped fd r now w free closing empty here entry =
      simp (free, empty)
        (Returns->>= (tcp_stream_rem D fd writable w) (tcp_stream_close D fd now)
          (Takes D fd writable w) (Dropped fd w)
          (tcp_stream_rem-Takes D fd writable w entry (λ e. absurd (ground (e, arith))))
          λ w1 a.
            let same = ap (λ (f : ℕ → TcpTransport D). f r) a.rest.tcp in
            Returns-map (tcp_stream_close D fd now w1) (Forgets D fd w1) (Dropped fd w)
              (tcp_stream_close-Forgets D fd now r w1 (ap (get fd) a.rest.tcp_transports ∙ here)
                (ap (λ (t : TcpTransport D). t.borrowed) same ∙ free)
                (ap (λ (t : TcpTransport D). t.closing) same ∙ closing))
              λ w2 f. record {
                trace = f.trace ∙ a.rest.trace;
                gone = f.forgotten fd ∙ rw (==_refl fd) refl;
                no_write = ground (arith, f.handles_io, a.write);
                read = ground (arith, f.handles_io, a.read);
              })

  -- What `run` does after the write.
  abbrev pub after_run : ℕ → ℕ → ℕ → Option ℕ × World D → Result (World D)
  after_run fd r now (written, w) = after_write D r now written w >>= finish_run D fd r now

  pub run-plain :
      (fd r now : ℕ) (answers : List WriteResult) (w : World D)
      → get fd w.tcp_transports ≡ some r
      → (w.tcp r).borrowed ≡ false
      → (w.tcp r).tls_conn ≡ none
      → run D fd now answers w ≡ (write D r answers w >>= after_run fd r now)
  unfolding run run_found write_buffer
  run-plain fd r now answers w here free plain = elim (Bool-cases (w.tcp r).tls_close_sent) [
    | inl told ↦ simp (here, free, plain, told) refl
    | inr open_still ↦ simp (here, free, plain, open_still) refl
  ]
