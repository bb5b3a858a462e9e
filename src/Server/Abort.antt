-- ===== src/Server/Abort.antt =====
-- `abort` of several transports without TLS of src/tcp.rs, one after the other.
use tokioloop.Base.{
  ◌∙◌, sym, subst, ℕ, ltb, ◌==◌, if◌then◌else◌, Bool, false, true, none, some, List, ◌∷◌, ◌≡◌, ◌≢◌,
  refl, ap, arith,
}
use tokioloop.Deps.{Deps, Interest, readable, writable, both}
use tokioloop.World.{
  store_self, World, TcpTransport, Effect, connection_lost, Returns, Returns->>=, Returns-map,
  Result, ok, set_tcp, ◌>>=◌,
}
use tokioloop.EventLoop.Watch.{Takes, is_stream_entry}
use tokioloop.EventLoop.Streams.{tcp_stream_rem}
use tokioloop.EventLoop.Streams.Sync.{tcp_stream_rem-Takes}
use tokioloop.Tcp.Close.{borrow, abort, call_conn_lost}
use tokioloop.Tcp.Close.Lost.{Lost, call_conn_lost-Lost}

module _ (D : Deps) where
  open D use {get}

  -- The loop has the transport for its descriptor, which is a stream's; it has no TLS and is not borrowed.
  pub record IsOpen (r : ℕ) (w : World D) : Type 0 where
    pub free : (w.tcp r).borrowed ≡ false
    pub plain : (w.tcp r).tls_conn ≡ none
    pub here : get (w.tcp r).fd w.tcp_transports ≡ some r
    pub entry : is_stream_entry (get (w.tcp r).fd w.handles_io) ≡ true

  -- What changes of the transport `r` and of what is watched for it, and nothing else.
  record Calms (r : ℕ) (w w' : World D) : Type 0 where
    pub fd : (w'.tcp r).fd ≡ (w.tcp r).fd
    pub open_still : IsOpen r w → IsOpen r w'
    pub others : (j : ℕ) → ((w.tcp r).fd == j) ≡ false → get j w'.handles_io ≡ get j w.handles_io
    pub other_tcp : (q : ℕ) → (r == q) ≡ false → w'.tcp q ≡ w.tcp q
    pub transports : w'.tcp_transports ≡ w.tcp_transports
    pub trace : w'.trace ≡ w.trace

  Calms-refl : (r : ℕ) (w : World D) → Calms r w w
  Calms-refl r w = record {
    fd = refl;
    open_still = λ o. o;
    others = λ j n. refl;
    other_tcp = λ q n. refl;
    transports = refl;
    trace = refl;
  }

  Calms-trans : (r : ℕ) (w v u : World D) → Calms r w v → Calms r v u → Calms r w u
  Calms-trans r w v u a b = record {
    fd = b.fd ∙ a.fd;
    open_still = λ o. b.open_still (a.open_still o);
    others = λ j n. b.others j (ap (λ (f : ℕ). f == j) a.fd ∙ n) ∙ a.others j n;
    other_tcp = λ q n. b.other_tcp q n ∙ a.other_tcp q n;
    transports = b.transports ∙ a.transports;
    trace = b.trace ∙ a.trace;
  }

  Takes-Calms : (r : ℕ) (i : Interest) (w v : World D) → Takes D (w.tcp r).fd i w v → Calms r w v
  Takes-Calms r i w v a =
      let same = ap (λ (f : ℕ → TcpTransport D). f r) a.rest.tcp in
      let fd = ap (λ (t : TcpTransport D). t.fd) same in
      record {
        fd = fd;
        open_still = λ o. record {
          free = ap (λ (t : TcpTransport D). t.borrowed) same ∙ o.free;
          plain = ap (λ (t : TcpTransport D). t.tls_conn) same ∙ o.plain;
          here =
              ap (λ (f : ℕ). get f v.tcp_transports) fd
              ∙ ap (get (w.tcp r).fd) a.rest.tcp_transports
              ∙ o.here;
          entry = ap (λ (f : ℕ). is_stream_entry (get f v.handles_io)) fd ∙ a.streams o.entry;
        };
        others = a.others;
        other_tcp = λ q n. ap (λ (f : ℕ → TcpTransport D). f q) a.rest.tcp;
        transports = a.rest.tcp_transports;
        trace = a.rest.trace;
      }

  rem-Calms :
      (r : ℕ) (i : Interest) (w : World D)
      → i ≢ both
      → IsOpen r w
      → Returns (tcp_stream_rem D (w.tcp r).fd i w) (Calms r w)
  rem-Calms r i w single o =
      Returns-map (tcp_stream_rem D (w.tcp r).fd i w) (Takes D (w.tcp r).fd i w) (Calms r w)
        (tcp_stream_rem-Takes D (w.tcp r).fd i w o.entry single) (Takes-Calms r i w)

  mark-Calms :
      (r : ℕ) (w : World D) → Calms r w (set_tcp D r (record (w.tcp r) { closing = true }) w)
  mark-Calms r w =
      let t = record (w.tcp r) { closing = true } in
      let same = store_self w.tcp r t in
      record {
        fd = ap (λ (x : TcpTransport D). x.fd) same;
        open_still = λ o. record {
          free = ap (λ (x : TcpTransport D). x.borrowed) same ∙ o.free;
          plain = ap (λ (x : TcpTransport D). x.tls_conn) same ∙ o.plain;
          here = ap (λ (x : TcpTransport D). get x.fd w.tcp_transports) same ∙ o.here;
          entry =
              ap (λ (x : TcpTransport D). is_stream_entry (get x.fd w.handles_io)) same ∙ o.entry;
        };
        others = λ j n. refl;
        other_tcp = λ q n. rw n refl;
        transports = refl;
        trace = refl;
      }

  -- The protocol of `r` has been told that the connection is lost, the loop has forgotten `r`, and the
  -- other transports and what is watched for them are as before.
  pub record Aborted (r : ℕ) (w w' : World D) : Type 0 where
    pub others : (j : ℕ) → ((w.tcp r).fd == j) ≡ false → get j w'.handles_io ≡ get j w.handles_io
    pub other_tcp : (q : ℕ) → (r == q) ≡ false → w'.tcp q ≡ w.tcp q
    pub trace : w'.trace ≡ connection_lost r false ∷ w.trace
    pub forgotten :
        (j : ℕ)
        → get j w'.tcp_transports ≡ (if (w.tcp r).fd == j then none else get j w.tcp_transports)

  Lost-Aborted : (r : ℕ) (w v u : World D) → Calms r w v → Lost D false r v u → Aborted r w u
  Lost-Aborted r w v u a l = record {
    others = λ j n. ap (get j) l.same_handles ∙ a.others j n;
    other_tcp = λ q n. ap (λ (f : ℕ → TcpTransport D). f q) l.same_tcp ∙ a.other_tcp q n;
    trace = l.trace ∙ ap (λ (es : List Effect). connection_lost r false ∷ es) a.trace;
    forgotten = λ j.
        l.forgotten j
        ∙ ap (λ (f : ℕ). if f == j then none else get j v.tcp_transports) a.fd
        ∙ ap (λ (m : D.Map ℕ). if (w.tcp r).fd == j then none else get j m) a.transports;
  }

  -- The first step of `abort`: what is written is no longer watched.
  drop_output :
      (r : ℕ) (b : Bool) (w : World D)
      → IsOpen r w
      → Returns
          (if b then tcp_stream_rem D (w.tcp r).fd writable w else ok w)
          (λ w1. Calms r w w1 × (w1.tcp r ≡ w.tcp r))
  drop_output r false w o = (Calms-refl r w, refl)
  drop_output r true w o =
      Returns-map (tcp_stream_rem D (w.tcp r).fd writable w) (Takes D (w.tcp r).fd writable w) _
        (tcp_stream_rem-Takes D (w.tcp r).fd writable w o.entry (λ e. absurd (ground (e, arith))))
        λ w1 a. (Takes-Calms r writable w w1 a, ap (λ (f : ℕ → TcpTransport D). f r) a.rest.tcp)

  -- The second step: the transport is marked and no longer read, if it was not closing.
  drop_input :
      (r fd : ℕ) (b : Bool) (t : TcpTransport D) (w : World D)
      → w.tcp r ≡ t
      → t.fd ≡ fd
      → IsOpen r w
      → Returns
          (if b
            then ok w
            else tcp_stream_rem D fd readable (set_tcp D r (record t { closing = true }) w))
          (Calms r w)
  drop_input r fd true t w same same_fd o = Calms-refl r w
  drop_input r fd false t w same same_fd o =
      let v = set_tcp D r (record t { closing = true }) w in
      let mark : Calms r w v =
        subst (λ x. Calms r w (set_tcp D r (record x { closing = true }) w)) same
          (mark-Calms r w) in
      let fd_v : (v.tcp r).fd ≡ fd =
        ap (λ (x : TcpTransport D). x.fd) (store_self w.tcp r (record t { closing = true }))
        ∙ same_fd in
      subst (λ f. Returns (tcp_stream_rem D f readable v) (Calms r w)) fd_v
        (Returns-map (tcp_stream_rem D (v.tcp r).fd readable v) (Calms r v) (Calms r w)
          (rem-Calms r readable v (λ e. absurd (ground (e, arith))) (mark.open_still o))
          λ u b. Calms-trans r w v u mark b)

  borrow_free : (r : ℕ) (w : World D) → (w.tcp r).borrowed ≡ false → borrow D r w ≡ ok (w.tcp r)
  borrow_free r w free = simp free refl

  -- The step of `abort` that stops the reading, and `abort` after its borrow.
  abbrev stop_reading : ℕ → TcpTransport D → World D → Result (World D)
  stop_reading r t w =
      if t.closing
      then ok w
      else tcp_stream_rem D t.fd readable (set_tcp D r (record t { closing = true }) w)

  abbrev abort_rest : ℕ → ℕ → World D → TcpTransport D → Result (World D)
  abort_rest r now w t =
      (if ltb 0 t.write_buf_dsize then tcp_stream_rem D t.fd writable w else ok w) >>= λ w1.
      stop_reading r t w1 >>= call_conn_lost D r now false

  -- `abort` of an open transport without TLS returns.
  pub abort-Aborted :
      (r now : ℕ) (w : World D) → IsOpen r w → Returns (abort D r now w) (Aborted r w)
  unfolding abort
  abort-Aborted r now w o =
      let t = w.tcp r in
      subst (λ m. Returns (m >>= abort_rest r now w) (Aborted r w)) (sym (borrow_free r w o.free))
        (Returns->>= (if ltb 0 t.write_buf_dsize then tcp_stream_rem D t.fd writable w else ok w)
          (λ w1. stop_reading r t w1 >>= call_conn_lost D r now false)
          (λ w1. Calms r w w1 × (w1.tcp r ≡ w.tcp r)) (Aborted r w)
          (drop_output r (ltb 0 t.write_buf_dsize) w o)
          λ w1 (a, same).
            Returns->>= (stop_reading r t w1) (call_conn_lost D r now false) (Calms r w1)
              (Aborted r w) (drop_input r t.fd t.closing t w1 same refl (a.open_still o))
              λ w3 b.
                let c = Calms-trans r w w1 w3 a b in
                let o3 = c.open_still o in
                Returns-map (call_conn_lost D r now false w3) (Lost D false r w3) (Aborted r w)
                  (call_conn_lost-Lost D r now false w3 o3.free o3.plain o3.here)
                  λ u l. Lost-Aborted r w w3 u c l)
