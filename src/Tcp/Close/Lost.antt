-- ===== src/Tcp/Close/Lost.antt =====
-- How a TCP transport without TLS ends: `call_conn_lost`, `close` and `abort` of src/tcp.rs with
-- `tcp_stream_close` of src/event_loop.rs.
use tokioloop.Base.{
  subst, ap₂, ◌∙◌, ℕ, ◌==◌, if◌then◌else◌, Bool, false, true, Option, none, some, List, ◌∷◌, ◌≡◌,
  refl, ap, arith,
}
use tokioloop.Deps.{Deps, readable, writable, reads, writes}
use tokioloop.World.{
  Returns-map, Returns->>=, store_self, World, TcpTransport, Effect, connection_lost, Returns,
  set_tcp, emit, ◌>>=◌,
}
use tokioloop.EventLoop.Watch.{watched, IsSynced, Takes, Takes-both, Unwatched, is_stream_entry}
use tokioloop.EventLoop.Streams.{tcp_stream_rem}
use tokioloop.EventLoop.Streams.Sync.{tcp_stream_rem-Takes}
use tokioloop.Tcp.Close.{
  close, abort, close_by, close_plain, close_if_tls, close_found, leave_listener, drop_stream,
  tcp_stream_close, call_conn_lost,
}

module _ (D : Deps) where
  open D use {get, remove, get-remove, get-insert}

  -- The protocol has been told that the connection is lost, and the loop has forgotten the transport.
  pub record Lost (errored : Bool) (r : ℕ) (w w' : World D) : Type 0 where
    pub same_tcp : w'.tcp ≡ w.tcp
    pub same_handles : w'.handles_io ≡ w.handles_io
    pub same_registry : w'.registry ≡ w.registry
    pub trace : w'.trace ≡ connection_lost r errored ∷ w.trace
    pub forgotten :
        (j : ℕ)
        → get j w'.tcp_transports ≡ (if (w.tcp r).fd == j then none else get j w.tcp_transports)
    pub left :
        (lfd : ℕ) (streams : D.Map (Unit {0}))
        → (w.tcp r).lfd ≡ some lfd
        → get lfd w'.tcp_lstreams ≡ some streams
        → get (w.tcp r).fd streams ≡ none

  drop_stream-Lost :
      (errored : Bool) (r lfd : ℕ) (w v : World D) (streams : Option (D.Map (Unit {0})))
      → v ≡ (record (emit D (connection_lost r errored) w) {
        tcp_transports = remove (w.tcp r).fd w.tcp_transports;
      })
      → (w.tcp r).lfd ≡ some lfd
      → get lfd w.tcp_lstreams ≡ streams
      → Lost errored r w (drop_stream D (w.tcp r).fd lfd v streams)
  drop_stream-Lost errored r lfd w v none same e found = record {
    same_tcp = ground (same, arith);
    same_handles = ground (same, arith);
    same_registry = ground (same, arith);
    trace = ground (same, arith);
    forgotten = λ j. rw same (get-remove j (w.tcp r).fd w.tcp_transports);
    left = λ l m is_l f. absurd (ground (arith, e, is_l, f, found, same));
  }
  drop_stream-Lost errored r lfd w v (some set) same e found = record {
    same_tcp = ground (same, arith);
    same_handles = ground (same, arith);
    same_registry = ground (same, arith);
    trace = ground (same, arith);
    forgotten = λ j. rw same (get-remove j (w.tcp r).fd w.tcp_transports);
    left = λ l m is_l f. ground (
      arith,
      e,
      is_l,
      f,
      get-insert l lfd (remove (w.tcp r).fd set) v.tcp_lstreams,
      get-remove (w.tcp r).fd (w.tcp r).fd set,
    );
  }

  leave_listener-Lost :
      (errored : Bool) (r : ℕ) (w : World D) (lfd : Option ℕ)
      → (w.tcp r).lfd ≡ lfd
      → Lost errored r w (
          leave_listener D (w.tcp r).fd lfd (record (emit D (connection_lost r errored) w) {
            tcp_transports = remove (w.tcp r).fd w.tcp_transports;
          }))
  leave_listener-Lost errored r w none e = record {
    same_tcp = refl;
    same_handles = refl;
    same_registry = refl;
    trace = refl;
    forgotten = λ j. get-remove j (w.tcp r).fd w.tcp_transports;
    left = λ l m is_l _. absurd (ground (arith, e, is_l));
  }
  leave_listener-Lost errored r w (some lfd) e =
      drop_stream-Lost errored r lfd w _ (get lfd w.tcp_lstreams) refl e refl

  -- `call_conn_lost` of a transport without TLS, not borrowed, that the loop has for its descriptor,
  -- returns. `connection_lost` is called once more, the loop has no transport for the descriptor, and the
  -- listener that accepted the stream does not have it in its set.
  pub call_conn_lost-Lost :
      (r now : ℕ) (errored : Bool) (w : World D)
      → (w.tcp r).borrowed ≡ false
      → (w.tcp r).tls_conn ≡ none
      → get (w.tcp r).fd w.tcp_transports ≡ some r
      → Returns (call_conn_lost D r now errored w) (Lost errored r w)
  unfolding call_conn_lost tcp_stream_close close_found
  call_conn_lost-Lost r now errored w free plain here =
      rw (here, free)
        (rw (plain, close_if_tls) (leave_listener-Lost errored r w (w.tcp r).lfd refl))

  -- The transport `r` is closing, the protocol has been told so once, without an error, the loop has
  -- forgotten it, and nothing is watched for its descriptor; the rest is as before.
  pub record Closed (r : ℕ) (w w' : World D) : Type 0 where
    pub kept : w'.tcp r ≡ record (w.tcp r) { closing = true }
    pub trace : w'.trace ≡ connection_lost r false ∷ w.trace
    pub no_read : reads (watched D (w.tcp r).fd w') ≡ false
    pub no_write : writes (watched D (w.tcp r).fd w') ≡ false
    pub others : (j : ℕ) → ((w.tcp r).fd == j) ≡ false → get j w'.handles_io ≡ get j w.handles_io
    pub synced : IsSynced D w → IsSynced D w'
    pub forgotten :
        (j : ℕ)
        → get j w'.tcp_transports ≡ (if (w.tcp r).fd == j then none else get j w.tcp_transports)

  Unwatched-Closed :
      (r : ℕ) (w v u : World D)
      → Unwatched D (w.tcp r).fd (set_tcp D r (record (w.tcp r) { closing = true }) w) v
      → Lost false r v u
      → Closed r w u
  Unwatched-Closed r w v u a b =
      let here = store_self w.tcp r (record (w.tcp r) { closing = true }) in
      let kept : v.tcp r ≡ record (w.tcp r) { closing = true } =
        ap (λ (f : ℕ → TcpTransport D). f r) a.rest.tcp ∙ here in
      record {
        kept = ap (λ (f : ℕ → TcpTransport D). f r) b.same_tcp ∙ kept;
        trace = b.trace ∙ ap (λ (es : List Effect). connection_lost r false ∷ es) a.rest.trace;
        no_read = ground (a.read, b.same_handles, arith);
        no_write = ground (a.write, b.same_handles, arith);
        others = λ j n. ap (get j) b.same_handles ∙ a.others j n;
        synced = λ h j. ground (a.synced h j, b.same_handles, b.same_registry, arith);
        forgotten = λ j.
            ground
              (b.forgotten j, ap (λ (t : TcpTransport D). t.fd) kept, a.rest.tcp_transports, arith);
      }

  -- Nothing is watched for the transport's descriptor, and then it is lost.
  abbrev Ended : ℕ → World D → World D → Type 0
  Ended r w u = (v : World D) × Unwatched D (w.tcp r).fd w v × Lost false r v u

  close_plain-Ended :
      (r now : ℕ) (w : World D)
      → (w.tcp r).borrowed ≡ false
      → (w.tcp r).tls_conn ≡ none
      → (w.tcp r).write_buf_dsize ≡ 0
      → is_stream_entry (get (w.tcp r).fd w.handles_io) ≡ true
      → get (w.tcp r).fd w.tcp_transports ≡ some r
      → Returns (close_plain D r now w) (Ended r w)
  unfolding close_plain
  close_plain-Ended r now w free plain nothing entry here =
      let fd = (w.tcp r).fd in
      Returns->>= (tcp_stream_rem D fd readable w) _ (Takes D fd readable w) (Ended r w)
        (tcp_stream_rem-Takes D fd readable w entry (λ e. absurd (ground (e, arith))))
        λ w1 a.
          let kept = ap (λ (f : ℕ → TcpTransport D). f r) a.rest.tcp in
          simp
            (
              ap (λ (t : TcpTransport D). t.borrowed) kept ∙ free,
              ap (λ (t : TcpTransport D). t.write_buf_dsize) kept ∙ nothing,
            )
            (Returns->>= (tcp_stream_rem D fd writable w1) _ (Takes D fd writable w1) (Ended r w)
              (tcp_stream_rem-Takes D fd writable w1 (a.streams entry)
                (λ e. absurd (ground (e, arith))))
              λ w2 b.
                let u = Takes-both D fd w w1 w2 a b in
                let same = ap (λ (f : ℕ → TcpTransport D). f r) u.rest.tcp in
                Returns-map (call_conn_lost D r now false w2) (Lost false r w2) (Ended r w)
                  (call_conn_lost-Lost r now false w2
                    (ap (λ (t : TcpTransport D). t.borrowed) same ∙ free)
                    (ap (λ (t : TcpTransport D). t.tls_conn) same ∙ plain)
                    (ap₂ (λ (f : ℕ) (m : D.Map ℕ). get f m) (ap (λ (t : TcpTransport D). t.fd) same)
                        u.rest.tcp_transports
                      ∙ here))
                  λ w3 l. (w2, u, l))

  -- `close` of a transport without TLS that is not closing, is not borrowed, has nothing buffered, that the
  -- loop has for its descriptor, and whose descriptor is free or a stream's, returns. The transport is
  -- then closing, `connection_lost` has been called once and without an error, the loop has forgotten
  -- the transport, and nothing is watched for the descriptor. Other descriptors are watched and have
  -- transports as before, and the loop's table agrees with the poll if it did before.
  pub close-Closed :
      (r now : ℕ) (w : World D)
      → (w.tcp r).closing ≡ false
      → (w.tcp r).borrowed ≡ false
      → (w.tcp r).tls_conn ≡ none
      → (w.tcp r).write_buf_dsize ≡ 0
      → is_stream_entry (get (w.tcp r).fd w.handles_io) ≡ true
      → get (w.tcp r).fd w.tcp_transports ≡ some r
      → Returns (close D r now w) (Closed r w)
  unfolding close close_by
  close-Closed r now w first free plain nothing entry here =
      let t0 = record (w.tcp r) { closing = true } in
      let w0 = set_tcp D r t0 w in
      let same = store_self w.tcp r t0 in
      let free0 = ap (λ (x : TcpTransport D). x.borrowed) same ∙ free in
      let plain0 = ap (λ (x : TcpTransport D). x.tls_conn) same ∙ plain in
      let nothing0 = ap (λ (x : TcpTransport D). x.write_buf_dsize) same ∙ nothing in
      let fd0 = ap (λ (x : TcpTransport D). x.fd) same in
      simp (first, free0, plain0)
        (Returns-map (close_plain D r now w0) (Ended r w0) (Closed r w)
          (close_plain-Ended r now w0 free0 plain0 nothing0
            (ap (λ (f : ℕ). is_stream_entry (get f w.handles_io)) fd0 ∙ entry)
            (ap (λ (f : ℕ). get f w.tcp_transports) fd0 ∙ here))
          λ u (v, a, b). Unwatched-Closed r w v u (subst (λ f. Unwatched D f w0 v) fd0 a) b)

  abort_lost :
      (r now : ℕ) (w : World D)
      → (w.tcp r).borrowed ≡ false
      → (w.tcp r).closing ≡ true
      → (w.tcp r).write_buf_dsize ≡ 0
      → get (w.tcp r).fd w.tcp_transports ≡ none
      → Returns (abort D r now w) (λ w'. w'.trace ≡ connection_lost r false ∷ w.trace)
  unfolding abort call_conn_lost tcp_stream_close close_found
  abort_lost r now w free closing nothing gone = ground (free, closing, nothing, gone, arith)

  -- Under the conditions of `close-Closed`, a call of `abort` after `close` returns, and the protocol has
  -- then been told twice that the connection is lost.
  abort_after_close :
      (r now later : ℕ) (w : World D)
      → (w.tcp r).closing ≡ false
      → (w.tcp r).borrowed ≡ false
      → (w.tcp r).tls_conn ≡ none
      → (w.tcp r).write_buf_dsize ≡ 0
      → is_stream_entry (get (w.tcp r).fd w.handles_io) ≡ true
      → get (w.tcp r).fd w.tcp_transports ≡ some r
      → Returns
          (close D r now w >>= abort D r later)
          (λ w'. w'.trace ≡ connection_lost r false ∷ connection_lost r false ∷ w.trace)
  abort_after_close r now later w first free plain nothing entry here =
      Returns->>= (close D r now w) (abort D r later) (Closed r w) _
        (close-Closed r now w first free plain nothing entry here)
        λ w1 c.
          let kept = c.kept in
          Returns-map (abort D r later w1) _ _
            (abort_lost r later w1 (ap (λ (t : TcpTransport D). t.borrowed) kept ∙ free)
              (ap (λ (t : TcpTransport D). t.closing) kept)
              (ap (λ (t : TcpTransport D). t.write_buf_dsize) kept ∙ nothing)
              (ground (c.forgotten (w.tcp r).fd, ap (λ (t : TcpTransport D). t.fd) kept, arith)))
            λ w2 e. e ∙ ap (λ (es : List Effect). connection_lost r false ∷ es) c.trace
