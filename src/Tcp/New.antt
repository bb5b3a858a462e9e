-- ===== src/Tcp/New.antt =====
-- New TCP transports: TCPTransport::new, from_py, attach, initialize_tls_server and initialize_tls_client
-- and TCPServerRef::new_stream of src/tcp.rs, and handle_io_tcpl and _tcp_conn of src/event_loop.rs.
use tokioloop.Base.{
  ◌*◌, ◌/◌, ℕ, if◌then◌else◌, Bool, true, false, ◌&&◌, not, Option, none, some, List, [], ◌∷◌, ◌++◌,
}
use tokioloop.Deps.{Deps, readable, writable, register}
use tokioloop.Handle.{Handle, cb_handle_one_arg, no_op_handle}
use tokioloop.World.{
  World, TcpTransport, TcpServerRef, tcp_stream, connection_made, Result, ok, panic, unwrap_none,
  unwrap_error, new_cell, set_tcp, emit, ◌>>=◌,
}
use tokioloop.EventLoop.Streams.{tcp_stream_add}

-- What Python has of a protocol: whether it is a `BufferedProtocol`, if that test raises no exception,
-- which of the methods that are looked up it has, and its method `connection_made`, if it has it.
pub record MadeProtocol : Type 0 where
  pub proto_buffered : Option Bool
  pub connection_lost : Bool
  pub get_buffer : Bool
  pub buffer_updated : Bool
  pub data_received : Bool
  pub conn_made : Option ℕ

-- A stream that the listener accepts: its descriptor, the reference of its transport, the protocol that
-- the factory makes, unless it raises an exception, and the context and flag of its handle.
pub record Accepted : Type 0 where
  pub fd : ℕ
  pub ref : ℕ
  pub protocol : Option MadeProtocol
  pub ssl_close_timeout : Option ℕ
  pub context : ℕ
  pub cell : ℕ

-- `call0().unwrap()` of the factory.
unfoldable pub call_factory : Option MadeProtocol → Result MadeProtocol
call_factory none = panic unwrap_error
call_factory (some p) = ok p

-- The methods that `TCPTransport::new` looks up.
abbrev pub has_methods : MadeProtocol → Bool → Bool
has_methods p true = p.connection_lost && (p.get_buffer && p.buffer_updated)
has_methods p false = p.connection_lost && p.data_received

-- Its `unwrap` calls: whether the protocol is a `BufferedProtocol`.
unfoldable pub look_up : MadeProtocol → Option Bool → Result Bool
look_up p none = panic unwrap_error
look_up p (some proto_buffered) =
    if has_methods p proto_buffered then ok proto_buffered else panic unwrap_error

-- `getattr` of `connection_made`, with its `unwrap`.
unfoldable pub made_handle : Option ℕ → ℕ → ℕ → ℕ → Result Handle
made_handle none r context cell = panic unwrap_error
made_handle (some conn_made) r context cell = ok (cb_handle_one_arg conn_made r context cell)

-- `RLOOP_SSL_CLOSE_TIMEOUT`, if it is set and a number.
abbrev timeout_or : Option ℕ → ℕ
timeout_or none = 1000
timeout_or (some t) = t

module _ (D : Deps) where
  open D use {
    get, insert, Conn, ServerConfig, ClientConfig, server_connection, client_connection,
    wants_write,
  }

  unfoldable pub new : ℕ → Option ℕ → Bool → Option ℕ → TcpTransport D
  new fd lfd proto_buffered ssl_close_timeout =
      let wh = 1024 * 64 in
      record {
        fd = fd;
        lfd = lfd;
        borrowed = false;
        tls_conn = none;
        handshake_complete = false;
        connection_made_called = false;
        write_buf = [];
        write_buf_dsize = 0;
        tls_close_sent = false;
        tls_close_received = false;
        tls_close_sent_time = none;
        tls_pending_close = false;
        ssl_close_timeout = timeout_or ssl_close_timeout;
        closing = false;
        paused = false;
        water_hi = wh;
        water_lo = wh / 4;
        weof = false;
        proto_buffered = proto_buffered;
        proto_paused = false;
      }

  unfoldable pub with_tls : TcpTransport D → Option Conn → Result (TcpTransport D)
  with_tls t none = panic unwrap_none
  with_tls t (some conn) = ok (record t { tls_conn = some conn; handshake_complete = false })

  unfoldable pub initialize_tls_server : ServerConfig → TcpTransport D → Result (TcpTransport D)
  unfolding with_tls
  initialize_tls_server ssl_config t = with_tls t (server_connection ssl_config)

  -- Whether the connection has bytes to send.
  abbrev pub conn_wants_write : Option Conn → Bool
  conn_wants_write none = false
  conn_wants_write (some conn) = wants_write conn

  unfoldable pub initialize_tls_client : ClientConfig → ℕ → ℕ → World D → Result (World D)
  unfolding with_tls
  initialize_tls_client ssl_config server_name r w = do
    t ← with_tls (w.tcp r) (client_connection ssl_config server_name)
    let w' = set_tcp D r t w
    if conn_wants_write t.tls_conn then tcp_stream_add D t.fd writable w' else ok w'

  -- Of a server with TLS the handle does nothing; `connection_made` is called after the handshake.
  unfoldable pub new_stream : TcpServerRef D → Accepted → Result (TcpTransport D × Handle)
  unfolding new call_factory look_up initialize_tls_server made_handle
  new_stream server a = do
    p ← call_factory a.protocol
    proto_buffered ← look_up p p.proto_buffered
    let t = new a.fd (some server.fd) proto_buffered a.ssl_close_timeout
    elim server.ssl_config [
      | none ↦ made_handle p.conn_made a.ref a.context a.cell >>= λ h. ok (t, h)
      | some ssl_config ↦ initialize_tls_server ssl_config t >>= λ t'. ok (t', no_op_handle)
    ]

  -- The loop of `handle_io_tcpl` over the accepted streams; `lstreams` is the listener's set.
  unfoldable pub accept_all :
      TcpServerRef D
      → List Accepted
      → D.Map (Unit {0})
      → World D
      → List Handle
      → Result (World D × List Handle)
  accept_all server [] lstreams w handles = ok (w, handles)
  accept_all server (a ∷ accepted) lstreams w handles =
      let lstreams' = insert a.fd tt lstreams in
      new_stream server a >>= λ made.
      accept_all server accepted lstreams'
        (record (set_tcp D a.ref made.0 (new_cell D a.cell w)) {
          tcp_transports = insert a.fd a.ref w.tcp_transports;
          tcp_lstreams = insert server.fd lstreams' w.tcp_lstreams;
          registry = register a.fd readable ∷ w.registry;
          handles_io = insert a.fd (tcp_stream readable) w.handles_io;
        })
        (handles ++ (made.1 ∷ []))

  unfoldable pub accept_into :
      ℕ
      → List Accepted
      → World D
      → List Handle
      → Option (D.Map (Unit {0}))
      → Result (World D × List Handle)
  unfolding accept_all new_stream
  accept_into server accepted w handles none = panic unwrap_none
  accept_into server accepted w handles (some lstreams) =
      accept_all (w.servers server) accepted lstreams w handles

  unfoldable pub handle_io_tcpl :
      ℕ → List Accepted → World D → List Handle → Result (World D × List Handle)
  unfolding accept_into
  handle_io_tcpl server accepted w handles =
      accept_into server accepted w handles (get (w.servers server).fd w.tcp_lstreams)

  -- `attach`, and whether it is `Ok`: with TLS `connection_made` waits for the handshake, else it is
  -- called, and may raise an exception.
  unfoldable pub attach : ℕ → Bool → World D → Bool × World D
  attach r raises w = elim (w.tcp r).tls_conn [
    | none ↦ (not raises, emit D (connection_made r) w)
    | some _ ↦ (true, w)
  ]

  -- `_tcp_conn`, for a client with TLS where a configuration and the server's name are given, and
  -- whether it is `Ok`.
  unfoldable pub tcp_conn :
      ℕ
      → ℕ
      → Option MadeProtocol
      → Bool
      → Option ℕ
      → Option (ClientConfig × ℕ)
      → World D
      → Result (Bool × World D)
  unfolding new call_factory look_up initialize_tls_client attach
  tcp_conn fd r protocol raises ssl_close_timeout ssl w = do
    p ← call_factory protocol
    proto_buffered ← look_up p p.proto_buffered
    let w1 = set_tcp D r (new fd none proto_buffered ssl_close_timeout) w
    w2 ← elim ssl [
      | none ↦ ok w1
      | some (ssl_config, server_name) ↦ initialize_tls_client ssl_config server_name r w1
    ]
    let (made, w3) = attach r raises w2
    let added =
        tcp_stream_add D fd readable (record w3 { tcp_transports = insert fd r w3.tcp_transports })
    if made then (added >>= λ w4. ok (true, w4)) else ok (false, w3)
