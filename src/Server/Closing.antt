-- ===== src/Server/Closing.antt =====
-- How a server of src/server.rs and src/tcp.rs closes.
use mathlib.Core.List.{Memᴰ}
use tokioloop.Base.{
  ◌∙◌, sym, subst, ℕ, ◌==◌, ==_refl, false, true, none, some, List, [], ◌∷◌, ◌≡◌, refl, ap, arith,
  Bool-cases, inl, inr,
}
use tokioloop.Deps.{Deps}
use tokioloop.World.{
  World, TcpTransport, tcp_listener, Effect, connection_lost, Returns, Returns->>=, Returns-map,
}
use tokioloop.EventLoop.Watch.{is_stream_entry}
use tokioloop.EventLoop.Listeners.{tcp_listener_rem}
use tokioloop.Server.{TcpServer, abort_all, streams_of, streams_abort, close_listener}
use tokioloop.Server.Abort.{IsOpen, Aborted, abort-Aborted}
use tokioloop.Tcp.Close.{abort}

-- The trace after each of the protocols has been told, once, that its connection is lost.
abbrev pub told : List ℕ → List Effect → List Effect
told [] es = es
told (r ∷ rs) es = told rs (connection_lost r false ∷ es)

-- No transport of the list is `r`.
abbrev pub Apart : ℕ → List ℕ → Type 0
Apart r [] = Unit {0}
Apart r (q ∷ qs) = ((r == q) ≡ false) × Apart r qs

abbrev pub AllApart : List ℕ → Type 0
AllApart [] = Unit {0}
AllApart (r ∷ rs) = Apart r rs × AllApart rs

Apart-Mem : (r : ℕ) (rs : List ℕ) (q : ℕ) → Apart r rs → Memᴰ q rs → (r == q) ≡ false
Apart-Mem r [] q h m = elim m [ ]
Apart-Mem r (k ∷ rs) q (n, h) (Memᴰ.head e) = subst (λ x. (r == x) ≡ false) (sym e) n
Apart-Mem r (k ∷ rs) q (n, h) (Memᴰ.tail m) = Apart-Mem r rs q h m

module _ (D : Deps) where
  open D use {get, get-remove}

  abbrev pub AllOpen : List ℕ → World D → Type 0
  AllOpen [] w = Unit {0}
  AllOpen (r ∷ rs) w = IsOpen D r w × AllOpen rs w

  -- The descriptors of two transports differ.
  fds-differ :
      (r q : ℕ) (w : World D)
      → IsOpen D r w
      → IsOpen D q w
      → (r == q) ≡ false
      → ((w.tcp r).fd == (w.tcp q).fd) ≡ false
  fds-differ r q w o p n = elim (Bool-cases ((w.tcp r).fd == (w.tcp q).fd)) [
    | inl same ↦
        let fds : (w.tcp r).fd ≡ (w.tcp q).fd = ground (arith, same) in
        absurd (ground (arith, n, o.here, p.here, ap (λ (f : ℕ). get f w.tcp_transports) fds))
    | inr apart ↦ apart
  ]

  -- An open transport stays open when another is aborted.
  Aborted-IsOpen :
      (r q : ℕ) (w w' : World D)
      → IsOpen D r w
      → IsOpen D q w
      → (r == q) ≡ false
      → Aborted D r w w'
      → IsOpen D q w'
  Aborted-IsOpen r q w w' o p n a =
      let same = a.other_tcp q n in
      let apart = fds-differ r q w o p n in
      let fd = ap (λ (t : TcpTransport D). t.fd) same in
      record {
        free = ap (λ (t : TcpTransport D). t.borrowed) same ∙ p.free;
        plain = ap (λ (t : TcpTransport D). t.tls_conn) same ∙ p.plain;
        here =
            ap (λ (f : ℕ). get f w'.tcp_transports) fd ∙ a.forgotten (w.tcp q).fd ∙ rw apart p.here;
        entry =
            ap (λ (f : ℕ). is_stream_entry (get f w'.handles_io)) fd
            ∙ ap is_stream_entry (a.others (w.tcp q).fd apart)
            ∙ p.entry;
      }

  Aborted-AllOpen :
      (r : ℕ) (qs : List ℕ) (w w' : World D)
      → IsOpen D r w
      → AllOpen qs w
      → Apart r qs
      → Aborted D r w w'
      → AllOpen qs w'
  Aborted-AllOpen r [] w w' o p n a = tt
  Aborted-AllOpen r (q ∷ qs) w w' o (p, ps) (n, ns) a =
      (Aborted-IsOpen r q w w' o p n a, Aborted-AllOpen r qs w w' o ps ns a)

  -- Every protocol of the transports has been told, in their order, and the loop has none of them for the
  -- descriptor that it had; it has no new transports. Every
  -- listener is as before.
  pub record AllAborted (rs : List ℕ) (w w' : World D) : Type 0 where
    pub trace : w'.trace ≡ told rs w.trace
    pub listeners :
        (j s : ℕ)
        → get j w.handles_io ≡ some (tcp_listener s)
        → get j w'.handles_io ≡ some (tcp_listener s)
    pub kept : (j : ℕ) → get j w.tcp_transports ≡ none → get j w'.tcp_transports ≡ none
    pub gone : (r : ℕ) → Memᴰ r rs → get (w.tcp r).fd w'.tcp_transports ≡ none

  not-listener :
      (r : ℕ) (w : World D) (j s : ℕ)
      → IsOpen D r w
      → get j w.handles_io ≡ some (tcp_listener s)
      → ((w.tcp r).fd == j) ≡ false
  not-listener r w j s o e = elim (Bool-cases ((w.tcp r).fd == j)) [
    | inl same ↦
        let fds : (w.tcp r).fd ≡ j = ground (arith, same) in
        absurd (ground (arith, e, o.entry, ap (λ (f : ℕ). get f w.handles_io) fds))
    | inr apart ↦ apart
  ]

  pub abort_all-AllAborted :
      (now : ℕ) (rs : List ℕ) (w : World D)
      → AllApart rs
      → AllOpen rs w
      → Returns (abort_all D now rs w) (AllAborted rs w)
  unfolding abort_all
  abort_all-AllAborted now [] w h o = record {
    trace = refl;
    listeners = λ j s e. e;
    kept = λ j e. e;
    gone = λ r m. elim m [ ];
  }
  abort_all-AllAborted now (r ∷ rs) w (apart, h) (o, os) =
      Returns->>= (abort D r now w) (abort_all D now rs) (Aborted D r w) (AllAborted (r ∷ rs) w)
        (abort-Aborted D r now w o)
        λ v a.
          Returns-map (abort_all D now rs v) (AllAborted rs v) (AllAborted (r ∷ rs) w)
            (abort_all-AllAborted now rs v h (Aborted-AllOpen r rs w v o os apart a))
            λ u b. record {
              trace = b.trace ∙ ap (told rs) a.trace;
              listeners = λ j s e. b.listeners j s (a.others j (not-listener r w j s o e) ∙ e);
              kept = λ j e. b.kept j (a.forgotten j ∙ ground (arith, e));
              gone = λ q m. elim m [
                | Memᴰ.head e ↦
                    ap (λ (k : ℕ). get (w.tcp k).fd u.tcp_transports) e
                    ∙ b.kept (w.tcp r).fd
                        (a.forgotten (w.tcp r).fd ∙ rw (==_refl (w.tcp r).fd) refl)
                | Memᴰ.tail t ↦
                    ap (λ (x : TcpTransport D). get x.fd u.tcp_transports)
                      (sym (a.other_tcp q (Apart-Mem r rs q apart t)))
                    ∙ b.gone q t
              ];
            }

  -- What `close` leaves of a listener and of the transports `rs` of its streams.
  pub record Shut (fd : ℕ) (rs : List ℕ) (w w' : World D) : Type 0 where
    pub trace : w'.trace ≡ told rs w.trace
    pub gone : (r : ℕ) → Memᴰ r rs → get (w.tcp r).fd w'.tcp_transports ≡ none
    pub no_entry : get fd w'.handles_io ≡ none
    pub no_streams : get fd w'.tcp_lstreams ≡ none

  -- `close` of a server's listener returns, whatever the order in which its streams are taken, if the
  -- transports of its streams are open, without TLS and each taken once, the loop has the listener, and
  -- the poll lets it go. The protocol of each of the transports is told once, in that order and without
  -- an error, that its connection is lost, and nothing else is done for a transport; the loop has none of
  -- the transports for its descriptor, and neither the listener nor its set of streams.
  pub close_listener-Shut :
      (order : D.Map (Unit {0}) → List ℕ) (server : TcpServer D) (s now : ℕ) (w : World D)
      → get server.fd w.handles_io ≡ some (tcp_listener s)
      → AllApart (streams_of D order server.fd w)
      → AllOpen (streams_of D order server.fd w) w
      → Returns
          (close_listener D order server now true w)
          (Shut server.fd (streams_of D order server.fd w) w)
  unfolding close_listener streams_abort tcp_listener_rem
  close_listener-Shut order server s now w listens apart opens =
      let rs = streams_of D order server.fd w in
      Returns->>= (abort_all D now rs w) _ (AllAborted rs w) (Shut server.fd rs w)
        (abort_all-AllAborted now rs w apart opens)
        λ v a. rw (a.listeners server.fd s listens) (record {
          trace = a.trace;
          gone = a.gone;
          no_entry = get-remove server.fd server.fd v.handles_io ∙ rw (==_refl server.fd) refl;
          no_streams = get-remove server.fd server.fd v.tcp_lstreams ∙ rw (==_refl server.fd) refl;
        })
