-- ===== src/Tcp/WriteHandle/Rest.antt =====
-- The end of the write handle's `run` of src/tcp.rs on a transport that is not closing.
use tokioloop.Base.{
  ◌∙◌, ℕ, ltb, if◌then◌else◌, Bool, false, true, Option, none, some, List, [], ◌∷◌, ◌≡◌, ◌≢◌, refl,
  ap, arith, Bool-cases, inl, inr,
}
use tokioloop.Deps.{Deps, writable, writes}
use tokioloop.World.{IoHandle, World, TcpTransport, Returns, Returns->>=, Returns-map, ok}
use tokioloop.EventLoop.Watch.{watched, Takes, is_stream_entry}
use tokioloop.EventLoop.Streams.{tcp_stream_rem}
use tokioloop.EventLoop.Streams.Sync.{tcp_stream_rem-Takes}
use tokioloop.Tcp.Close.{is_empty, close_from_write_handle}
use tokioloop.Tcp.Write.{write_buf_size_decr}
use tokioloop.Tcp.WriteHandle.Bytes.{wire}
use tokioloop.Tcp.WriteHandle.Frame.{
  losses, after_run, SameButPause, write_buf_size_decr-SameButPause,
}
use tokioloop.Tcp.WriteHandle.Run.{after_flush, after_write, finish_stream, finish_run}

module _ (D : Deps) where
  open D use {get}

  -- What the end of `run` leaves where the stream is not to be closed.
  pub record Rested (fd r : ℕ) (w w' : World D) : Type 0 where
    pub same_tcp : w'.tcp ≡ w.tcp
    pub same_transports : w'.tcp_transports ≡ w.tcp_transports
    pub same_losses : losses r w'.trace ≡ losses r w.trace
    pub same_wire : (k : ℕ) → wire k w'.trace ≡ wire k w.trace
    pub quiet : (w.tcp r).write_buf ≡ [] → writes (watched D fd w') ≡ false
    pub waiting : (w.tcp r).write_buf ≢ [] → w'.handles_io ≡ w.handles_io

  -- The answer of `close_from_write_handle` on an open transport: to close the write side, or nothing.
  abbrev half : Bool → Option Bool
  half weof = if weof then some false else none

  finish_stream-half :
      (fd r now : ℕ) (weof : Bool) (w : World D)
      → Returns (finish_stream D fd r now (half weof) w) (λ w'.
        (w'.tcp ≡ w.tcp)
        × (w'.tcp_transports ≡ w.tcp_transports)
        × (losses r w'.trace ≡ losses r w.trace)
        × ((k : ℕ) → wire k w'.trace ≡ wire k w.trace)
        × (w'.handles_io ≡ w.handles_io))
  unfolding finish_stream
  finish_stream-half fd r now true w = (refl, refl, refl, λ k. refl, refl)
  finish_stream-half fd r now false w = (refl, refl, refl, λ k. refl, refl)

  is_empty-nil : (chunks : List (List ℕ)) → is_empty chunks ≡ true → chunks ≡ []
  is_empty-nil [] e = refl
  is_empty-nil (c ∷ cs) e = absurd (ground (arith, e))

  finish_run-Rested :
      (fd r now : ℕ) (weof : Bool) (w : World D)
      → (w.tcp r).borrowed ≡ false
      → is_stream_entry (get fd w.handles_io) ≡ true
      → Returns (finish_run D fd r now (half weof, w)) (Rested fd r w)
  unfolding finish_run
  finish_run-Rested fd r now weof w free entry = elim (Bool-cases (is_empty (w.tcp r).write_buf)) [
    | inl empty ↦
        simp (free, empty)
          (Returns->>= (tcp_stream_rem D fd writable w) _ (Takes D fd writable w) (Rested fd r w)
            (tcp_stream_rem-Takes D fd writable w entry (λ e. absurd (ground (e, arith))))
            λ w1 a.
              Returns-map (finish_stream D fd r now (half weof) w1) _ (Rested fd r w)
                (finish_stream-half fd r now weof w1)
                λ w2 (t, ts, ls, wi, hs). record {
                  same_tcp = t ∙ a.rest.tcp;
                  same_transports = ts ∙ a.rest.tcp_transports;
                  same_losses = ls ∙ ap (losses r) a.rest.trace;
                  same_wire = λ k. wi k ∙ ap (wire k) a.rest.trace;
                  quiet = λ _. ground (arith, hs, a.write);
                  waiting = λ n. absurd (n (is_empty-nil (w.tcp r).write_buf empty));
                })
    | inr full ↦
        simp (free, full)
          (Returns-map (finish_stream D fd r now (half weof) w) _ (Rested fd r w)
            (finish_stream-half fd r now weof w)
            λ w2 (t, ts, ls, wi, hs). record {
              same_tcp = t;
              same_transports = ts;
              same_losses = ls;
              same_wire = wi;
              quiet = λ e. absurd (ground (arith, ap is_empty e, full));
              waiting = λ _. hs;
            })
  ]

  -- The world in which the end of `run` begins.
  abbrev pub noted : ℕ → Option ℕ → World D → World D
  noted r none w = w
  noted r (some n) w = if ltb 0 n then write_buf_size_decr D r w else w

  pub noted-SameButPause :
      (r : ℕ) (result : Option ℕ) (w : World D) → SameButPause D r w (noted r result w)
  noted-SameButPause r none w = write_buf_size_decr-SameButPause D r false w
  noted-SameButPause r (some n) w = write_buf_size_decr-SameButPause D r (ltb 0 n) w

  after_write-open :
      (r now : ℕ) (result : Option ℕ) (w : World D)
      → (w.tcp r).borrowed ≡ false
      → (w.tcp r).closing ≡ false
      → (w.tcp r).tls_pending_close ≡ false
      → (weof : Bool) × (after_write D r now result w ≡ ok (half weof, noted r result w))
  unfolding after_write after_flush close_from_write_handle
  after_write-open r now none w free open_still no_alert = ((w.tcp r).weof, simp open_still refl)
  after_write-open r now (some n) w free open_still no_alert =
      let u = noted r (some n) w in
      let same = (noted-SameButPause r (some n) w).same_tcp in
      let free_u = ap (λ (t : TcpTransport D). t.borrowed) same ∙ free in
      let open_u = ap (λ (t : TcpTransport D). t.closing) same ∙ open_still in
      let alert_u = ap (λ (t : TcpTransport D). t.tls_pending_close) same ∙ no_alert in
      elim (Bool-cases (is_empty (u.tcp r).write_buf)) [
        | inl empty ↦ ((u.tcp r).weof, simp (free_u, empty, alert_u, open_u) refl)
        | inr full ↦ (false, simp (free_u, full) refl)
      ]

  -- The end of `run` on an open transport.
  pub after_run-Rested :
      (fd r now : ℕ) (result : Option ℕ) (w : World D)
      → (w.tcp r).borrowed ≡ false
      → (w.tcp r).closing ≡ false
      → (w.tcp r).tls_pending_close ≡ false
      → is_stream_entry (get fd w.handles_io) ≡ true
      → Returns (after_run D fd r now (result, w)) (Rested fd r (noted r result w))
  after_run-Rested fd r now result w free open_still no_alert entry =
      let p = noted-SameButPause r result w in
      let (weof, e) = after_write-open r now result w free open_still no_alert in
      rw e (
        finish_run-Rested fd r now weof (noted r result w)
          (ap (λ (t : TcpTransport D). t.borrowed) p.same_tcp ∙ free)
          (ap (λ (m : D.Map IoHandle). is_stream_entry (get fd m)) p.same_handles ∙ entry))
