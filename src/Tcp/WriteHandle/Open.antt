-- ===== src/Tcp/WriteHandle/Open.antt =====
-- The write handle of src/tcp.rs on a transport that is not closing.
use tokioloop.Base.{
  ◌∙◌, sym, ℕ, ◌≤◌, ◌-◌, ltb, false, true, Option, none, some, List, [], ◌∷◌, ◌++◌, length, ◌≡◌,
  ◌≢◌, refl, ap, Bool-cases, inl, inr,
}
use tokioloop.Deps.{Deps, writes}
use tokioloop.World.{
  store_self, IoHandle, World, TcpTransport, Returns, Returns->>=, Returns-map, Returns-both,
}
use tokioloop.EventLoop.Watch.{watched, is_stream_entry}
use tokioloop.Base.{total, join}
use tokioloop.Tcp.Write.{WriteResult, wrote, write_interrupted, would_block, write_failed}
use tokioloop.Tcp.WriteHandle.{
  Flush, flushed, flush_failed, flush_starved, sent_first, flush, apply_flush, write,
}
use tokioloop.Tcp.WriteHandle.Bytes.{
  wire, stream, IsSized, Written, write-Written, decisive, Settles, flush-Settles,
}
use tokioloop.Tcp.WriteHandle.Frame.{losses, after_run, run-plain}
use tokioloop.Tcp.WriteHandle.Run.{run}
use tokioloop.Tcp.WriteHandle.Rest.{Rested, after_run-Rested, noted, noted-SameButPause}

-- No write fails.
abbrev pub Works : List WriteResult → Type 0
Works [] = Unit {0}
Works (write_failed ∷ answers) = ⊥
Works (_ ∷ answers) = Works answers

-- Not the end at a failed write.
abbrev Unbroken : Flush → Type 0
Unbroken (flush_failed _) = ⊥
Unbroken _ = Unit {0}

sent_first-Unbroken : (chunk : List ℕ) (f : Flush) → Unbroken f → Unbroken (sent_first chunk f)
sent_first-Unbroken chunk (flushed _ _) h = tt
sent_first-Unbroken chunk (flush_failed _) h = h
sent_first-Unbroken chunk flush_starved h = tt

flush-Unbroken :
    (answers : List WriteResult) (chunks : List (List ℕ))
    → Works answers
    → Unbroken (flush answers chunks)
unfolding flush
flush-Unbroken [] [] h = tt
flush-Unbroken (a ∷ answers) [] h = tt
flush-Unbroken [] (chunk ∷ rest) h = tt
flush-Unbroken (wrote n ∷ answers) (chunk ∷ rest) h = elim (Bool-cases (ltb n (length chunk))) [
  | inl partial ↦ rw (partial, Unbroken) tt
  | inr full ↦
      rw (full, Unbroken)
        (sent_first-Unbroken chunk (flush answers rest) (flush-Unbroken answers rest h))
]
flush-Unbroken (write_interrupted ∷ answers) (chunk ∷ rest) h =
    flush-Unbroken answers (chunk ∷ rest) h
flush-Unbroken (would_block ∷ answers) (chunk ∷ rest) h = tt
flush-Unbroken (write_failed ∷ answers) (chunk ∷ rest) h = absurd h

module _ (D : Deps) where
  open D use {get}

  -- Only the buffer of `r`, its count and the bytes sent differ.
  record Moved (r : ℕ) (w w' : World D) : Type 0 where
    pub left : List (List ℕ)
    pub size : ℕ
    pub same_tcp : w'.tcp r ≡ record (w.tcp r) { write_buf = left; write_buf_dsize = size }
    pub same_handles : w'.handles_io ≡ w.handles_io
    pub same_transports : w'.tcp_transports ≡ w.tcp_transports
    pub same_losses : losses r w'.trace ≡ losses r w.trace

  apply_flush-Moved :
      (r : ℕ) (f : Flush) (w : World D)
      → Settles f
      → Returns (apply_flush D r f w) (λ (n, w'). Moved r w w')
  unfolding apply_flush
  apply_flush-Moved r (flushed bytes rest) w s = record {
    left = rest;
    size = (w.tcp r).write_buf_dsize - length bytes;
    same_tcp = store_self w.tcp r _;
    same_handles = refl;
    same_transports = refl;
    same_losses = refl;
  }
  apply_flush-Moved r (flush_failed bytes) w s = record {
    left = [];
    size = 0;
    same_tcp = store_self w.tcp r _;
    same_handles = refl;
    same_transports = refl;
    same_losses = refl;
  }
  apply_flush-Moved r flush_starved w s = absurd s

  apply_flush-some :
      (r : ℕ) (f : Flush) (w : World D)
      → Settles f
      → Returns (apply_flush D r f w) (λ (n, w'). Unbroken f → (k : ℕ) × (n ≡ some k))
  unfolding apply_flush
  apply_flush-some r (flushed bytes rest) w s = λ _. (length bytes, refl)
  apply_flush-some r (flush_failed bytes) w s = λ u. absurd u
  apply_flush-some r flush_starved w s = absurd s

  -- What a write leaves; without a failed write there is a result.
  abbrev Wrote : ℕ → List WriteResult → World D → Option ℕ × World D → Type 0
  Wrote r answers w (n, w') = Moved r w w' × (Works answers → (k : ℕ) × (n ≡ some k))

  write-Wrote :
      (r : ℕ) (answers : List WriteResult) (w : World D)
      → (w.tcp r).borrowed ≡ false
      → length (w.tcp r).write_buf ≤ decisive answers
      → Returns (write D r answers w) (Wrote r answers w)
  unfolding write
  write-Wrote r answers w free enough =
      let chunks = (w.tcp r).write_buf in
      let f = flush answers chunks in
      let s = flush-Settles answers chunks enough in
      simp free (
        Returns-both (apply_flush D r f w) _ _ (apply_flush-Moved r f w s) (
          Returns-map (apply_flush D r f w) _ _ (apply_flush-some r f w s)
            λ _ h works. h (flush-Unbroken answers chunks works)))

  -- What `run` does to an open transport. The stream is the bytes on the wire, then those buffered.
  pub record Pumped (fd r : ℕ) (answers : List WriteResult) (w w' : World D) : Type 0 where
    pub sized : IsSized D (w'.tcp r)
    pub same_losses : losses r w'.trace ≡ losses r w.trace
    pub same_transports : w'.tcp_transports ≡ w.tcp_transports
    pub kept_stream : Works answers → stream D r w' ≡ stream D r w
    pub quiet : (w'.tcp r).write_buf ≡ [] → writes (watched D fd w') ≡ false
    pub waiting : (w'.tcp r).write_buf ≢ [] → w'.handles_io ≡ w.handles_io

  -- The write handle of a transport `r` without TLS that is not closing, with as many answers that are no
  -- interrupts as there are chunks, returns. The count of the buffer is right, the transport is not
  -- borrowed, is the loop's for its descriptor and has no close alert pending; the descriptor is free or
  -- a stream's. The count is then right again, the loop keeps its transports, and `connection_lost` is
  -- not called. If no write fails, the bytes on the wire followed by those buffered are what they were.
  -- An empty buffer is no longer watched for writing; with a buffer that is not empty the loop watches
  -- what it watched before.
  pub run-Pumped :
      (fd r now : ℕ) (answers : List WriteResult) (w : World D)
      → get fd w.tcp_transports ≡ some r
      → (w.tcp r).borrowed ≡ false
      → (w.tcp r).closing ≡ false
      → (w.tcp r).tls_conn ≡ none
      → (w.tcp r).tls_pending_close ≡ false
      → is_stream_entry (get fd w.handles_io) ≡ true
      → IsSized D (w.tcp r)
      → length (w.tcp r).write_buf ≤ decisive answers
      → Returns (run D fd now answers w) (Pumped fd r answers w)
  run-Pumped fd r now answers w here free open_still plain no_alert entry z enough =
      rw (run-plain D fd r now answers w here free plain) (
        Returns->>= (write D r answers w) (after_run D fd r now)
          (λ n. Written D r w n × Wrote r answers w n) (Pumped fd r answers w)
          (Returns-both (write D r answers w) _ _ (write-Written D r answers w free z enough)
            (write-Wrote r answers w free enough))
          λ (n, v) (a, frame).
            let (m, some_n) = frame in
            let p = noted-SameButPause D r n v in
            Returns-map (after_run D fd r now (n, v)) (Rested D fd r (noted D r n v)) _
              (after_run-Rested D fd r now n v
                (ap (λ (t : TcpTransport D). t.borrowed) m.same_tcp ∙ free)
                (ap (λ (t : TcpTransport D). t.closing) m.same_tcp ∙ open_still)
                (ap (λ (t : TcpTransport D). t.tls_pending_close) m.same_tcp ∙ no_alert)
                (ap (λ (x : D.Map IoHandle). is_stream_entry (get fd x)) m.same_handles ∙ entry))
              λ w' c.
                let same = ap (λ (f : ℕ → TcpTransport D). f r) c.same_tcp ∙ p.same_tcp in
                let buf = ap (λ (t : TcpTransport D). t.write_buf) same in
                let buf_u = ap (λ (t : TcpTransport D). t.write_buf) p.same_tcp in
                record {
                  sized =
                      ap (λ (t : TcpTransport D). t.write_buf_dsize) same
                      ∙ a.sized
                      ∙ sym (ap total buf);
                  same_losses = c.same_losses ∙ p.same_losses ∙ m.same_losses;
                  same_transports = c.same_transports ∙ p.same_transports ∙ m.same_transports;
                  kept_stream = λ works.
                      let (k, e) = some_n works in
                      ap (λ (t : TcpTransport D). wire t.fd w'.trace ++ join t.write_buf) same
                      ∙ ap (λ (x : List ℕ). x ++ join (v.tcp r).write_buf)
                          (c.same_wire (v.tcp r).fd ∙ p.same_wire (v.tcp r).fd)
                      ∙ a.kept_stream k e;
                  quiet = λ e. c.quiet (buf_u ∙ sym buf ∙ e);
                  waiting = λ e.
                      c.waiting (λ h. e (buf ∙ sym buf_u ∙ h)) ∙ p.same_handles ∙ m.same_handles;
                })
