-- ===== src/Tokio/Server/Missed.antt =====
-- A connection that a listener of src/tokio_tcp.rs accepts after its server has been closed is not closed.
use tokioloop.Base.{ℕ, true, false, Option, some, List, [], ◌∷◌, ◌++◌, ◌≡◌, refl, ap, ◌∙◌}
use tokioloop.Tokio.Transport.{fresh_transport, TransportOp, apply_all}
use tokioloop.Tokio.Io.{Io, Protocol, connection_made, call, attach}
use tokioloop.Tokio.Server.{
  checking, accepting, TokioTcpServer, accepted, create_transport_from_stream, io_of, add_transport,
  take_accepted, close_all, close_server, point_at, put, accepts, move,
}

-- A new transport of which its protocol is told.
abbrev pub connecting : ℕ → Option ℕ → Option ℕ → ℕ → Io
connecting fd local_addr peer_addr p =
    let io = io_of (fresh_transport fd local_addr peer_addr p) in
    record io { transport = record io.transport { has_stream = false; has_io_task = true } }

close_server-again : (s : TokioTcpServer) → s.closed ≡ true → close_server s ≡ s
unfolding close_server
close_server-again s h = simp h refl

-- What the task makes of a connection for which there is a transport.
accept_one :
    (protocol : Protocol) (k fd : ℕ) (local_addr peer_addr : Option ℕ) (p : ℕ) (s : TokioTcpServer)
    → point_at k s.tasks ≡ accepting
    → move protocol (accepts k (accepted fd local_addr peer_addr (some p) true)) s ≡ record s {
      transports =
          s.transports
          ++ (call protocol connection_made (connecting fd local_addr peer_addr p) ∷ []);
      tasks = put k (λ p. checking) s.tasks;
    }
unfolding move take_accepted create_transport_from_stream add_transport attach
accept_one protocol k fd local_addr peer_addr p s e = rw (e, move) refl

-- A task of the listener is in `accept` when the server is closed, and a connection comes, for which a
-- transport is made whose protocol calls nothing on it when it is told of it: the server has the
-- transport, which is not closing, and closing the server again changes nothing.
pub close_server-Misses :
    (protocol : Protocol) (k fd : ℕ) (local_addr peer_addr : Option ℕ) (p : ℕ) (s : TokioTcpServer)
    → s.closed ≡ false
    → point_at k s.tasks ≡ accepting
    → protocol connection_made (connecting fd local_addr peer_addr p) ≡ []
    → let late : TokioTcpServer =
        move protocol
          (accepts k (accepted fd local_addr peer_addr (some p) true))
          (close_server s) in
      (io : Io) × (late.transports ≡ close_all s.transports ++ (io ∷ []))
      × (io.transport.closing ≡ false)
      × (close_server late ≡ late)
unfolding call fresh_transport close_server apply_all
close_server-Misses protocol k fd local_addr peer_addr p s open_ e quiet =
    let shut : TokioTcpServer = record s { closed = true; transports = close_all s.transports } in
    let c : close_server s ≡ shut = simp open_ refl in
    let io = call protocol connection_made (connecting fd local_addr peer_addr p) in
    let same =
      ap (move protocol (accepts k (accepted fd local_addr peer_addr (some p) true))) c
      ∙ accept_one protocol k fd local_addr peer_addr p shut e in
    (
      io,
      ap (λ (u : TokioTcpServer). u.transports) same,
      ap
          (λ (ops : List TransportOp).
            (apply_all ops (connecting fd local_addr peer_addr p).transport).closing)
          quiet,
      close_server-again
          (move protocol (accepts k (accepted fd local_addr peer_addr (some p) true))
            (close_server s))
          (ap (λ (u : TokioTcpServer). u.closed) same),
    )
