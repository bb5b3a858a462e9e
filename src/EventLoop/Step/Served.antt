-- ===== src/EventLoop/Step/Served.antt =====
-- When the handling of the events of src/event_loop.rs does not panic: the `unwrap` calls of
-- handle_io_tcpl, new_stream, TCPTransport::new and initialize_tls_server.
use tokioloop.Base.{
  false, true, Bool, subst, ◌∙◌, sym, ℕ, ◌==◌, ◌&&◌, Option, none, some, List, [], ◌∷◌, ◌++◌, ◌≡◌,
  refl, ap, arith, Bool-cases, Option-cases, inl, inr,
}
use tokioloop.Deps.{Deps, readable, register}
use tokioloop.Handle.{Handle}
use tokioloop.World.{
  World, TcpServerRef, IoHandle, py, signals, tcp_listener, tcp_stream, udp_socket, Returns,
  Returns->>=, new_cell, set_tcp,
}
use tokioloop.EventLoop.Signals.{
  signals_from, is_nonempty, sig_handle_all, sig_handle, sig_found, signals_read, read_from_sock,
  handle_io_signals, sig_rem,
}
use tokioloop.EventLoop.Step.{Event, StepInput, seen, begin_step, handle_event, handle_events}
use tokioloop.Tcp.New.{
  Accepted, MadeProtocol, call_factory, look_up, has_methods, made_handle, accept_all, accept_into,
  new_stream, handle_io_tcpl, initialize_tls_server, with_tls,
}

module _ (D : Deps) where
  open D use {get, insert, get-insert, Conn, ServerConfig, server_connection}

  -- Every TLS configuration of the server gives a connection.
  abbrev pub Encrypts : TcpServerRef D → Type 0
  Encrypts server =
      (c : ServerConfig)
      → server.ssl_config ≡ some c
      → (conn : Conn) × (server_connection c ≡ some conn)

  -- Every listener of the loop has a set for its streams and can make a connection.
  pub record IsServed (w : World D) : Type 0 where
    pub streams :
        (j s : ℕ)
        → get j w.handles_io ≡ some (tcp_listener s)
        → (set : D.Map (Unit {0})) × (get (w.servers s).fd w.tcp_lstreams ≡ some set)
    pub encrypts : (j s : ℕ) → get j w.handles_io ≡ some (tcp_listener s) → Encrypts (w.servers s)

  -- The factory makes a protocol for the stream, which has `connection_made` and the methods that are looked
  -- up; the test for a `BufferedProtocol` raises no exception.
  pub record HasProtocol (a : Accepted) : Type 0 where
    pub protocol : MadeProtocol
    pub made : a.protocol ≡ some protocol
    pub proto_buffered : Bool
    pub tested : protocol.proto_buffered ≡ some proto_buffered
    pub methods : has_methods protocol proto_buffered ≡ true
    pub conn_made : ℕ
    pub greets : protocol.conn_made ≡ some conn_made

  abbrev pub HaveProtocols : List Accepted → Type 0
  HaveProtocols [] = Unit {0}
  HaveProtocols (a ∷ accepted) = HasProtocol a × HaveProtocols accepted

  -- The answers of the signal socket end its reading, and every stream that is accepted has a protocol.
  pub record IsAnswered (e : Event) : Type 0 where
    pub sigs : List ℕ
    pub read : read_from_sock e.answers ≡ some sigs
    pub protocols : HaveProtocols e.accepted

  abbrev pub AreAnswered : List Event → Type 0
  AreAnswered [] = Unit {0}
  AreAnswered (e ∷ es) = IsAnswered e × AreAnswered es

  new_stream-returns :
      (server : TcpServerRef D) (a : Accepted)
      → Encrypts server
      → HasProtocol a
      → Returns (new_stream D server a) (λ _. Unit {0})
  unfolding new_stream call_factory look_up made_handle initialize_tls_server with_tls
  new_stream-returns server a works h = elim (Option-cases server.ssl_config) [
    | inl plain ↦ rw h.made (rw h.tested (rw h.methods (rw plain (rw h.greets tt))))
    | inr (c, e) ↦
        let (conn, made) = works c e in rw h.made (rw h.tested (rw h.methods (rw e (rw made tt))))
  ]

  accept-IsServed :
      (server : TcpServerRef D) (a : Accepted) (t : _) (set : D.Map (Unit {0})) (w : World D)
      → IsServed w
      → IsServed (record (set_tcp D a.ref t (new_cell D a.cell w)) {
        tcp_transports = insert a.fd a.ref w.tcp_transports;
        tcp_lstreams = insert server.fd set w.tcp_lstreams;
        registry = register a.fd readable ∷ w.registry;
        handles_io = insert a.fd (tcp_stream readable) w.handles_io;
      })
  accept-IsServed server a t set w v = record {
    streams = λ j s e. elim (Bool-cases (a.fd == j)) [
      | inl same ↦
          absurd (ground (arith, e, same, get-insert j a.fd (tcp_stream readable) w.handles_io))
      | inr other ↦
          let old : get j w.handles_io ≡ some (tcp_listener s) =
            ground (arith, e, other, get-insert j a.fd (tcp_stream readable) w.handles_io) in
          let (before, b) = v.streams j s old in
          elim (Bool-cases (server.fd == (w.servers s).fd)) [
            | inl mine ↦
                (set, get-insert (w.servers s).fd server.fd set w.tcp_lstreams ∙ rw mine refl)
            | inr theirs ↦
                (before, get-insert (w.servers s).fd server.fd set w.tcp_lstreams ∙ rw theirs b)
          ]
    ];
    encrypts = λ j s e. elim (Bool-cases (a.fd == j)) [
      | inl same ↦
          absurd (ground (arith, e, same, get-insert j a.fd (tcp_stream readable) w.handles_io))
      | inr other ↦
          v.encrypts j s
            (ground (arith, e, other, get-insert j a.fd (tcp_stream readable) w.handles_io))
    ];
  }

  accept_all-IsServed :
      (server : TcpServerRef D) (accepted : List Accepted) (set : D.Map (Unit {0})) (w : World D)
      (hs : List Handle)
      → Encrypts server
      → HaveProtocols accepted
      → IsServed w
      → Returns (accept_all D server accepted set w hs) (λ n. IsServed n.0)
  unfolding accept_all
  accept_all-IsServed server [] set w hs works h v = v
  accept_all-IsServed server (a ∷ rest) set w hs works (has, h) v =
      Returns->>= (new_stream D server a) _ (λ _. Unit {0}) (λ n. IsServed n.0)
        (new_stream-returns server a works has)
        λ made _.
          accept_all-IsServed server rest (insert a.fd tt set) _ (hs ++ (made.1 ∷ [])) works h
            (accept-IsServed server a made.0 (insert a.fd tt set) w v)

  -- What a handled signal leaves of the tables is the same.
  abbrev SameTables : World D → World D → Type 0
  SameTables w w' =
      (w'.handles_io ≡ w.handles_io) × (w'.tcp_lstreams ≡ w.tcp_lstreams) × (w'.servers ≡ w.servers)

  sig_found-SameTables :
      (sig : ℕ) (w : World D) (hs : List Handle) (found : Option Handle)
      → SameTables w (sig_found D sig w hs found).0
  unfolding sig_found sig_rem
  sig_found-SameTables sig w hs none = (refl, refl, refl)
  sig_found-SameTables sig w hs (some h) = ground arith

  sig_handle_all-SameTables :
      (sigs : List ℕ) (w : World D) (hs : List Handle) → SameTables w (sig_handle_all D sigs w hs).0
  unfolding sig_handle_all sig_handle
  sig_handle_all-SameTables [] w hs = (refl, refl, refl)
  sig_handle_all-SameTables (sig ∷ sigs) w hs =
      let next = sig_found D sig w hs (get sig w.sig_handlers) in
      let (a, b, c) = sig_found-SameTables sig w hs (get sig w.sig_handlers) in
      let (x, y, z) = sig_handle_all-SameTables sigs next.0 next.1 in (x ∙ a, y ∙ b, z ∙ c)

  pub SameTables-IsServed : (w w' : World D) → SameTables w w' → IsServed w → IsServed w'
  SameTables-IsServed w w' (a, b, c) v = record {
    streams = λ j s e.
        let (set, here) = v.streams j s (ap (get j) (sym a) ∙ e) in
        (set, ground (arith, here, b, c));
    encrypts = λ j s e.
        subst (λ (f : ℕ → TcpServerRef D). Encrypts (f s)) (sym c)
          (v.encrypts j s (ap (get j) (sym a) ∙ e));
  }

  signals_from-IsServed :
      (pair : Option (ℕ × ℕ)) (e : Event) (w : World D) (hs : List Handle)
      → IsAnswered e
      → IsServed w
      → Returns (signals_from D pair e.answers w hs) (λ n. IsServed n.0)
  unfolding signals_from signals_read
  signals_from-IsServed none e w hs h v = v
  signals_from-IsServed (some _) e w hs h v =
      let sigs = h.sigs in
      rw h.read (elim (Bool-cases (is_nonempty D sigs && w.sig_listening)) [
        | inl deliver ↦
            rw (deliver, Returns)
              (SameTables-IsServed w (sig_handle_all D sigs w hs).0
                (sig_handle_all-SameTables sigs w hs) v)
        | inr ignore ↦ rw (ignore, Returns) v
      ])

  accept_into-IsServed :
      (j s : ℕ) (accepted : List Accepted) (w : World D) (hs : List Handle)
      → get j w.handles_io ≡ some (tcp_listener s)
      → HaveProtocols accepted
      → IsServed w
      → Returns (handle_io_tcpl D s accepted w hs) (λ n. IsServed n.0)
  unfolding handle_io_tcpl accept_into
  accept_into-IsServed j s accepted w hs entry h v =
      let (set, here) = v.streams j s entry in
      rw here (accept_all-IsServed (w.servers s) accepted set w hs (v.encrypts j s entry) h v)

  handle_event-IsServed :
      (e : Event) (entry : Option IoHandle) (w : World D) (hs : List Handle)
      → get e.token w.handles_io ≡ entry
      → IsAnswered e
      → IsServed w
      → Returns (handle_event D e entry w hs) (λ n. IsServed n.0)
  unfolding handle_event handle_io_signals
  handle_event-IsServed e none w hs found h v = v
  handle_event-IsServed e (some (py d)) w hs found h v = v
  handle_event-IsServed e (some (tcp_listener s)) w hs found h v =
      accept_into-IsServed e.token s e.accepted w hs found h.protocols v
  handle_event-IsServed e (some (tcp_stream _)) w hs found h v = v
  handle_event-IsServed e (some (udp_socket _)) w hs found h v = v
  handle_event-IsServed e (some signals) w hs found h v = signals_from-IsServed w.ssock e w hs h v

  -- The handling of the events returns, and every listener is served as before.
  pub handle_events-IsServed :
      (es : List Event) (w : World D) (hs : List Handle)
      → AreAnswered es
      → IsServed w
      → Returns (handle_events D es w hs) (λ n. IsServed n.0)
  unfolding handle_events
  handle_events-IsServed [] w hs h v = v
  handle_events-IsServed (e ∷ es) w hs (answered, h) v =
      Returns->>= (handle_event D e (get e.token w.handles_io) w hs) _ (λ n. IsServed n.0)
        (λ n. IsServed n.0)
        (handle_event-IsServed e (get e.token w.handles_io) w hs refl answered v)
        λ n k. handle_events-IsServed es n.0 n.1 h k

  pub AreAnswered-seen :
      (input : StepInput) (skipped : Bool)
      → AreAnswered input.events
      → AreAnswered (seen D input skipped)
  AreAnswered-seen input true h = tt
  AreAnswered-seen input false h = h

  pub begin_step-IsServed :
      (input : StepInput) (tick_last : ℕ) (w : World D)
      → IsServed w
      → IsServed (begin_step D input tick_last w)
  unfolding begin_step
  begin_step-IsServed input tick_last w v = record { streams = v.streams; encrypts = v.encrypts }
