-- ===== src/Tcp/WriteHandle/Graceful.antt =====
-- `close` of src/tcp.rs with bytes buffered, and the write handle after it.
use tokioloop.Base.{
  ◌∙◌, ℕ, ◌<◌, ◌==◌, false, true, none, some, List, ◌++◌, ◌≡◌, refl, ap, arith, subst, sym,
}
use tokioloop.Deps.{Deps, readable}
use tokioloop.World.{
  store_self, World, TcpTransport, Effect, Returns, Returns->>=, Returns-map, set_tcp, ◌>>=◌,
}
use tokioloop.EventLoop.Watch.{Takes, is_stream_entry}
use tokioloop.EventLoop.Streams.{tcp_stream_rem}
use tokioloop.EventLoop.Streams.Sync.{tcp_stream_rem-Takes}
use tokioloop.Base.{join}
use tokioloop.Tcp.Close.{close, close_by, close_plain}
use tokioloop.Tcp.Write.{WriteResult}
use tokioloop.Tcp.WriteHandle.Bytes.{wire}
use tokioloop.Tcp.WriteHandle.Finish.{Finished, TakesAll, run-Finished}
use tokioloop.Tcp.WriteHandle.Frame.{losses}
use tokioloop.Tcp.WriteHandle.Run.{run}

module _ (D : Deps) where
  open D use {get}

  -- The transport is marked and no longer read; what it has buffered stays, and nobody has been told.
  record Waits (fd r : ℕ) (w w' : World D) : Type 0 where
    pub same_tcp : w'.tcp r ≡ record (w.tcp r) { closing = true }
    pub transports : w'.tcp_transports ≡ w.tcp_transports
    pub entry :
        is_stream_entry (get fd w.handles_io) ≡ true → is_stream_entry (get fd w'.handles_io) ≡ true
    pub trace : w'.trace ≡ w.trace

  close_plain-Waits :
      (r now : ℕ) (w v : World D)
      → v.tcp r ≡ record (w.tcp r) { closing = true }
      → (v.tcp r).borrowed ≡ false
      → (v.tcp r).tls_conn ≡ none
      → 0 < (v.tcp r).write_buf_dsize
      → is_stream_entry (get (v.tcp r).fd v.handles_io) ≡ true
      → v.tcp_transports ≡ w.tcp_transports
      → v.handles_io ≡ w.handles_io
      → v.trace ≡ w.trace
      → Returns (close_plain D r now v) (Waits (v.tcp r).fd r w)
  unfolding close_plain
  close_plain-Waits r now w v marked free plain some_left entry ts hs tr =
      Returns->>= (tcp_stream_rem D (v.tcp r).fd readable v) _ (Takes D (v.tcp r).fd readable v)
        (Waits (v.tcp r).fd r w)
        (tcp_stream_rem-Takes D (v.tcp r).fd readable v entry (λ e. absurd (ground (e, arith))))
        λ w1 a.
          let same = ap (λ (f : ℕ → TcpTransport D). f r) a.rest.tcp in
          let left : ((w1.tcp r).write_buf_dsize == 0) ≡ false =
            ground (arith, some_left, ap (λ (t : TcpTransport D). t.write_buf_dsize) same) in
          simp
            (
              ap (λ (t : TcpTransport D). t.borrowed) same ∙ free,
              left,
              ap (λ (t : TcpTransport D). t.tls_conn) same ∙ plain,
            )
            (record {
              same_tcp = same ∙ marked;
              transports = a.rest.tcp_transports ∙ ts;
              entry = λ _. a.streams entry;
              trace = a.rest.trace ∙ tr;
            })

  close-Waits :
      (r now : ℕ) (w : World D)
      → (w.tcp r).closing ≡ false
      → (w.tcp r).borrowed ≡ false
      → (w.tcp r).tls_conn ≡ none
      → 0 < (w.tcp r).write_buf_dsize
      → is_stream_entry (get (w.tcp r).fd w.handles_io) ≡ true
      → Returns (close D r now w) (Waits (w.tcp r).fd r w)
  unfolding close close_by
  close-Waits r now w first free plain some_left entry =
      let t = record (w.tcp r) { closing = true } in
      let v = set_tcp D r t w in
      let same = store_self w.tcp r t in
      let free_v = ap (λ (x : TcpTransport D). x.borrowed) same ∙ free in
      let plain_v = ap (λ (x : TcpTransport D). x.tls_conn) same ∙ plain in
      let fd_v = ap (λ (x : TcpTransport D). x.fd) same in
      simp (first, free_v, plain_v)
        (Returns-map (close_plain D r now v) (Waits (v.tcp r).fd r w) (Waits (w.tcp r).fd r w)
          (close_plain-Waits r now w v same free_v plain_v
            (subst (λ n. 0 < n) (sym (ap (λ (x : TcpTransport D). x.write_buf_dsize) same))
              some_left)
            (ap (λ (f : ℕ). is_stream_entry (get f w.handles_io)) fd_v ∙ entry) refl refl refl)
          λ u h. subst (λ f. Waits f r w u) fd_v h)

  -- `close` of a transport without TLS that is open, not borrowed, has bytes buffered, no close alert
  -- pending, and is the loop's for its descriptor, which is a stream's or free, and then its write handle,
  -- when the socket takes all that is buffered, return. No byte is lost by the closing: the buffered
  -- bytes are on the wire after those before, in order, and only after them `connection_lost` is called,
  -- once and without an error, and neither `close` nor the handle calls it earlier; the loop has no transport for the descriptor and does not watch it for
  -- writing.
  pub close-Finished :
      (r now later : ℕ) (answers : List WriteResult) (w : World D)
      → get (w.tcp r).fd w.tcp_transports ≡ some r
      → (w.tcp r).closing ≡ false
      → (w.tcp r).borrowed ≡ false
      → (w.tcp r).tls_conn ≡ none
      → (w.tcp r).tls_pending_close ≡ false
      → 0 < (w.tcp r).write_buf_dsize
      → is_stream_entry (get (w.tcp r).fd w.handles_io) ≡ true
      → TakesAll answers (w.tcp r).write_buf
      → Returns (close D r now w >>= run D (w.tcp r).fd later answers) (Finished D (w.tcp r).fd r w)
  close-Finished r now later answers w here first free plain no_alert some_left entry all =
      let fd = (w.tcp r).fd in
      Returns->>= (close D r now w) (run D fd later answers) (Waits fd r w) (Finished D fd r w)
        (close-Waits r now w first free plain some_left entry)
        λ v a.
          let buf = ap (λ (x : TcpTransport D). x.write_buf) a.same_tcp in
          Returns-map (run D fd later answers v) (Finished D fd r v) (Finished D fd r w)
            (run-Finished D fd r later answers v (ap (get fd) a.transports ∙ here)
              (ap (λ (x : TcpTransport D). x.fd) a.same_tcp)
              (ap (λ (x : TcpTransport D). x.borrowed) a.same_tcp ∙ free)
              (ap (λ (x : TcpTransport D). x.closing) a.same_tcp)
              (ap (λ (x : TcpTransport D). x.tls_conn) a.same_tcp ∙ plain)
              (ap (λ (x : TcpTransport D). x.tls_pending_close) a.same_tcp ∙ no_alert)
              (a.entry entry) (subst (TakesAll answers) (sym buf) all))
            λ u f.
              let (before, told, bytes, once) = f.told in
              record {
                told = (
                  before,
                  told,
                  bytes
                      ∙ ap (λ (es : List Effect). wire fd es ++ join (v.tcp r).write_buf) a.trace
                      ∙ ap (λ (x : List (List ℕ)). wire fd w.trace ++ join x) buf,
                  once ∙ ap (losses r) a.trace,
                );
                gone = f.gone;
                no_write = f.no_write;
              }
