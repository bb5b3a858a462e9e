-- ===== src/Server.antt =====
-- Servers: `Server` of src/server.rs and `TCPServer` of src/tcp.rs. `order` is the order in which a set of
-- streams is iterated, which the crate does not specify.
pub mod Abort
pub mod Closing
use tokioloop.Base.{ℕ, if◌then◌else◌, Bool, true, false, Option, none, some, List, [], ◌∷◌}
use tokioloop.Deps.{Deps}
use tokioloop.World.{World, TcpServerRef, Result, ok, store, ◌>>=◌}
use tokioloop.EventLoop.Listeners.{tcp_listener_add, tcp_listener_rem}
use tokioloop.Tcp.Close

module _ (D : Deps) where
  open D use {get, ServerConfig}

  -- `TCPServer`, and the reference of the `TCPServerRef` that `listen` makes.
  pub record TcpServer : Type 0 where
    pub fd : ℕ
    pub ref : ℕ
    pub ssl_config : Option ServerConfig

  -- `Server`
  pub record Server : Type 0 where
    pub closed : Bool
    pub serving : Bool
    pub servers : List TcpServer

  unfoldable pub tcp : List TcpServer → Server
  tcp servers = record { closed = false; serving = false; servers = servers }

  -- The answer is whether the system's `listen` succeeds.
  unfoldable pub listen : TcpServer → Bool → World D → Bool × World D
  unfolding tcp_listener_add
  listen server accepted w =
      let sref : TcpServerRef D = record { fd = server.fd; ssl_config = server.ssl_config } in
      if accepted
      then (
        true,
        tcp_listener_add D server.fd server.ref
            (record w { servers = store w.servers server.ref sref }),
      )
      else (false, w)

  -- `_start_serving`, with the answers of `listen`; the first failure ends it.
  unfoldable pub listen_all : List TcpServer → List Bool → World D → Bool × World D
  unfolding listen
  listen_all [] answers w = (true, w)
  listen_all (server ∷ servers) [] w = (false, w)
  listen_all (server ∷ servers) (accepted ∷ answers) w =
      let (listens, w') = listen server accepted w in
      let rest = listen_all servers answers w' in if listens then rest else (false, w')

  unfoldable pub start_serving : List Bool → Server → World D → Bool × Server × World D
  unfolding listen_all
  start_serving answers s w =
      let (started, w') = listen_all s.servers answers w in
      (started, if started then record s { serving = true } else s, w')

  -- The transports of the streams that the loop still has.
  unfoldable pub transports_of : List ℕ → World D → List ℕ
  transports_of [] w = []
  transports_of (stream_fd ∷ fds) w =
      let rest = transports_of fds w in
      elim (get stream_fd w.tcp_transports) [ none ↦ rest | some r ↦ r ∷ rest ]

  unfoldable pub streams_of : (D.Map (Unit {0}) → List ℕ) → ℕ → World D → List ℕ
  unfolding transports_of
  streams_of order fd w = elim (get fd w.tcp_lstreams) [
    | none ↦ []
    | some set ↦ transports_of (order set) w
  ]

  unfoldable pub close_all : ℕ → List ℕ → World D → Result (World D)
  close_all now [] w = ok w
  close_all now (r ∷ rs) w = Close.close D r now w >>= close_all now rs

  unfoldable pub abort_all : ℕ → List ℕ → World D → Result (World D)
  abort_all now [] w = ok w
  abort_all now (r ∷ rs) w = Close.abort D r now w >>= abort_all now rs

  unfoldable pub streams_close :
      (D.Map (Unit {0}) → List ℕ) → TcpServer → ℕ → World D → Result (World D)
  unfolding close_all streams_of
  streams_close order server now w = close_all now (streams_of order server.fd w) w

  unfoldable pub streams_abort :
      (D.Map (Unit {0}) → List ℕ) → TcpServer → ℕ → World D → Result (World D)
  unfolding abort_all streams_of
  streams_abort order server now w = abort_all now (streams_of order server.fd w) w

  -- `TCPServer::close`. `accepted` is whether `deregister` succeeds; its answer is ignored.
  unfoldable pub close_listener :
      (D.Map (Unit {0}) → List ℕ) → TcpServer → ℕ → Bool → World D → Result (World D)
  unfolding streams_abort
  close_listener order server now accepted w = do
    w1 ← streams_abort order server now w
    (_, w2) ← tcp_listener_rem D server.fd accepted w1
    ok w2

  unfoldable pub close_listeners :
      (D.Map (Unit {0}) → List ℕ) → List TcpServer → ℕ → Bool → World D → Result (World D)
  unfolding close_listener
  close_listeners order [] now accepted w = ok w
  close_listeners order (server ∷ servers) now accepted w =
      close_listener order server now accepted w >>= close_listeners order servers now accepted

  -- `_close`: the listeners are closed the first time only.
  unfoldable pub close :
      (D.Map (Unit {0}) → List ℕ) → ℕ → Bool → Server → World D → Result (Server × World D)
  unfolding close_listeners
  close order now accepted s w =
      let first = close_listeners order s.servers now accepted w in
      (if s.closed then ok w else first) >>= λ w'.
      ok (record s { closed = true; serving = false }, w')
