-- ===== src/Examples/TokioServer.antt =====
-- Runs of the servers of src/tokio_tcp.rs and src/server.rs.
use tokioloop.Base.{ℕ, true, false, ◌≡◌, refl, some, List, [], ◌∷◌, ◌++◌}
use tokioloop.Tokio.Transport.{fresh_transport, closes, resumes}
use tokioloop.Tokio.Io.{Io, Protocol, eof_received}
use tokioloop.Tokio.Server.{
  point_at, TokioTcpServer, TokioServer, accepting, checking, accepted, Move, checks, accepts,
  starts, shuts, works, move, move_all, close_all, close_server, io_of, streams_abort,
  streams_close, start_serving, is_serving,
}
use tokioloop.Tokio.Server.Late.{Late, close_server-Late}
use tokioloop.Tokio.Server.Missed.{close_server-Misses}
use tokioloop.Tokio.Server.Streams.{AreLate, streams_abort-AreLate}

-- The protocol closes at the end of the input.
abbrev closing : Protocol
closing eof_received io = closes ∷ []
closing _ io = []

-- A server with a connection, whose listener has a task in `accept` and one at the head of its loop.
abbrev listening : TokioTcpServer
listening = record {
  transports = io_of (fresh_transport 7 (some 1) (some 2) 60) ∷ [];
  closed = false;
  tasks = accepting ∷ checking ∷ [];
}

-- Both tasks go on, and another listener starts.
abbrev moves : List Move
moves =
    accepts 0 (accepted 8 (some 1) (some 3) (some 61) true)
    ∷ checks 1
    ∷ starts
    ∷ checks 2
    ∷ works 0 (resumes ∷ [])
    ∷ shuts
    ∷ []

close_server-Late_example : Late 1 1 (move_all closing moves (close_server listening))
close_server-Late_example = close_server-Late closing moves listening refl

close_server-Misses_example :
    let late : TokioTcpServer =
      move closing
        (accepts 0 (accepted 8 (some 1) (some 3) (some 61) true))
        (close_server listening) in
    (io : Io) × (late.transports ≡ close_all listening.transports ++ (io ∷ []))
    × (io.transport.closing ≡ false)
    × (close_server late ≡ late)
unfolding point_at
close_server-Misses_example =
    close_server-Misses closing 0 8 (some 1) (some 3) 61 listening refl refl refl

abbrev serving : TokioServer
serving = record { servers = listening ∷ []; serving = true; closed = false }

-- The listener's tasks go on.
abbrev all_moves : ℕ → List Move
all_moves k = moves

streams_abort-AreLate_example :
    AreLate closing all_moves serving.servers (start_serving (streams_abort serving)).servers
    × AreLate closing all_moves serving.servers (start_serving (streams_close serving)).servers
    × (is_serving (streams_abort serving) ≡ is_serving serving)
streams_abort-AreLate_example = streams_abort-AreLate closing all_moves serving (refl, tt)
