-- ===== src/Tokio/Server.antt =====
-- `TokioTCPServer` of src/tokio_tcp.rs and `TokioServer` of src/server.rs. The transports of a server are the
-- list of their states: a change of one is seen by its protocol and by its own task. `close` and the
-- part of the listener's loop that makes a transport run one after the other, since each holds the
-- interpreter's lock.
pub mod Late
pub mod Missed
pub mod Streams
use mathlib.Core.Option
use tokioloop.Base.{
  ℕ, zero, suc, Bool, true, false, ◌||◌, if◌then◌else◌, Option, none, some, List, [], ◌∷◌, ◌++◌,
}
use tokioloop.Tokio.Transport.{
  TokioTcpTransport, TransportOp, fresh_transport, Making, from_py, apply_all,
}
use tokioloop.Tokio.Transport
use tokioloop.Tokio.Io.{Io, Protocol, attach}

-- Where a listener's task stands: before the test of `closed`, in `accept`, or at its end.
pub data Point : Type 0 where
  checking accepting stopped : Point

pub record TokioTcpServer : Type 0 where
  pub transports : List Io
  pub closed : Bool
  pub tasks : List Point

-- What `accept` gives: an error, or a stream, with its descriptor, its addresses, the protocol that the
-- factory makes, if it makes one, and whether a Python socket is made.
pub data Accepted : Type 0 where
  accept_error : Accepted
  accepted : ℕ → Option ℕ → Option ℕ → Option ℕ → Bool → Accepted

-- `none` is an exception.
unfoldable pub create_transport_from_stream :
    ℕ → Option ℕ → Option ℕ → Option ℕ → Bool → Option TokioTcpTransport
unfolding fresh_transport
create_transport_from_stream fd local_addr peer_addr none socket_made = none
create_transport_from_stream fd local_addr peer_addr (some protocol) socket_made =
    if socket_made then some (fresh_transport fd local_addr peer_addr protocol) else none

abbrev pub io_of : TokioTcpTransport → Io
io_of t = record { transport = t; sent = []; shutdown = false; calls = [] }

-- The transport is stored, and then attached.
unfoldable pub add_transport : Protocol → Option TokioTcpTransport → List Io → List Io
unfolding attach
add_transport protocol none ios = ios
add_transport protocol (some t) ios = ios ++ (attach protocol (io_of t) ∷ [])

unfoldable pub take_accepted : Protocol → Accepted → List Io → List Io
unfolding create_transport_from_stream add_transport
take_accepted protocol accept_error ios = ios
take_accepted protocol (accepted fd local_addr peer_addr made socket_made) ios =
    add_transport protocol (create_transport_from_stream fd local_addr peer_addr made socket_made)
      ios

unfoldable pub new_server : TokioTcpServer
new_server = record { transports = []; closed = false; tasks = [] }

unfoldable pub start_listening : TokioTcpServer → TokioTcpServer
start_listening s = record s { tasks = s.tasks ++ (checking ∷ []) }

abbrev pub close_io : Io → Io
close_io io = record io { transport = Transport.close io.transport }

unfoldable pub close_all : List Io → List Io
close_all [] = []
close_all (io ∷ ios) = close_io io ∷ close_all ios

unfoldable pub close_server : TokioTcpServer → TokioTcpServer
unfolding close_all
close_server s =
    if s.closed then s else record s { closed = true; transports = close_all s.transports }

-- The test at the head of the loop.
unfoldable pub check_closed : Bool → Point → Point
check_closed closed checking = if closed then stopped else accepting
check_closed closed p = p

-- The task with a number, and what is there in its place.
unfoldable pub point_at : ℕ → List Point → Point
point_at n [] = stopped
point_at zero (p ∷ ps) = p
point_at (suc n) (p ∷ ps) = point_at n ps

unfoldable pub put {ℓ} : {A : Type ℓ} → ℕ → (A → A) → List A → List A
put n f [] = []
put zero f (x ∷ xs) = f x ∷ xs
put (suc n) f (x ∷ xs) = x ∷ put n f xs

-- What happens to a server: a task of its listener tests `closed`, or its `accept` completes; another
-- thread starts a listener or closes; or a protocol, or another thread, works on a transport. What a
-- transport's own task does stands in Io: it calls the protocol, and changes no flag of the transport
-- but for `read_eof` and `write_shutdown_done`.
pub data Move : Type 0 where
  checks : ℕ → Move
  accepts : ℕ → Accepted → Move
  starts : Move
  shuts : Move
  works : ℕ → List TransportOp → Move

abbrev pub work : List TransportOp → Io → Io
work ops io = record io { transport = apply_all ops io.transport }

-- A move of a task that does not stand there changes nothing.
unfoldable pub move : Protocol → Move → TokioTcpServer → TokioTcpServer
unfolding take_accepted start_listening close_server check_closed
move protocol (checks n) s = record s { tasks = put n (check_closed s.closed) s.tasks }
move protocol (accepts n a) s = elim (point_at n s.tasks) [
  | accepting ↦ record s {
    transports = take_accepted protocol a s.transports;
    tasks = put n (λ p. checking) s.tasks;
  }
  | checking ↦ s
  | stopped ↦ s
]
move protocol starts s = start_listening s
move protocol shuts s = close_server s
move protocol (works n ops) s = record s { transports = put n (work ops) s.transports }

unfoldable pub move_all : Protocol → List Move → TokioTcpServer → TokioTcpServer
unfolding move
move_all protocol [] s = s
move_all protocol (m ∷ ms) s = move_all protocol ms (move protocol m s)

pub record TokioServer : Type 0 where
  pub servers : List TokioTcpServer
  pub serving : Bool
  pub closed : Bool

unfoldable pub start_all : List TokioTcpServer → List TokioTcpServer
unfolding start_listening
start_all [] = []
start_all (s ∷ ss) = start_listening s ∷ start_all ss

unfoldable pub close_servers : List TokioTcpServer → List TokioTcpServer
unfolding close_server
close_servers [] = []
close_servers (s ∷ ss) = close_server s ∷ close_servers ss

unfoldable pub start_serving : TokioServer → TokioServer
unfolding start_all
start_serving s = record s { servers = start_all s.servers; serving = true }

unfoldable pub is_serving : TokioServer → Bool
is_serving s = s.serving

unfoldable pub close : TokioServer → TokioServer
unfolding close_servers
close s = record s {
  servers = if s.closed then s.servers else close_servers s.servers;
  closed = true;
  serving = false;
}

unfoldable pub streams_close : TokioServer → TokioServer
unfolding close_servers
streams_close s = record s { servers = close_servers s.servers }

unfoldable pub streams_abort : TokioServer → TokioServer
unfolding close_servers
streams_abort s = record s { servers = close_servers s.servers }

-- `from_fd` of each socket, with its `start_listening`, and `TokioServer::tcp`: whether a socket is converted
-- is an input, and the first that is not ends it.
unfoldable pub from_fds : List Bool → Option (List TokioTcpServer)
unfolding new_server start_listening
from_fds [] = some []
from_fds (converted ∷ rest) =
    let others = from_fds rest in
    if converted then Option.map (λ ss. start_listening new_server ∷ ss) others else none

-- `_tcp_server`
unfoldable pub tcp_server : List Bool → Option TokioServer
unfolding from_fds
tcp_server sockets =
    Option.map (λ ss. record { servers = ss; serving = false; closed = false }) (from_fds sockets)

-- `_tcp_conn`: whether there is a TLS context, the protocol that the first call of the factory makes, and
-- whether `connection_made` raises an exception. `none` is an exception.
unfoldable pub tcp_conn : Bool → Option ℕ → ℕ → Making → Bool → Protocol → Option (Io × ℕ)
unfolding from_py attach
tcp_conn has_tls none fd m raises protocol = none
tcp_conn has_tls (some p) fd m raises protocol =
    if has_tls || raises
    then none
    else Option.map (λ t. (attach protocol (io_of t), p)) (from_py fd m)
