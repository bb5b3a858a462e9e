-- ===== src/Tokio/Server/Streams.antt =====
-- `_streams_close` and `_streams_abort` of `TokioServer` of src/server.rs.
use tokioloop.Base.{ℕ, suc, false, List, [], ◌∷◌, length, ◌≡◌, refl}
use tokioloop.Tokio.Io.{Protocol}
use tokioloop.Tokio.Server.{
  TokioTcpServer, TokioServer, Move, starts, move, move_all, close_servers, streams_close,
  streams_abort, is_serving, start_all, start_serving,
}
use tokioloop.Tokio.Server.Late.{Late, waiting, close_server-Late}

abbrev pub AreOpen : List TokioTcpServer → Type 0
AreOpen [] = Unit {0}
AreOpen (s ∷ ss) = (s.closed ≡ false) × AreOpen ss

-- Each server of the first list has ended as that of the second, whatever happens to it: it stays closed, its
-- transports are closing, and it gets at most one more for each of its tasks that was in `accept`.
abbrev pub AreLate : Protocol → (ℕ → List Move) → List TokioTcpServer → List TokioTcpServer → Type 0
AreLate protocol moves [] [] = Unit {0}
AreLate protocol moves (s ∷ ss) (s' ∷ ss') =
    Late (length s.transports) (waiting s.tasks) (move_all protocol (moves 0) s')
    × AreLate protocol (λ k. moves (suc k)) ss ss'
AreLate protocol moves _ _ = ⊥

start-close_servers :
    (protocol : Protocol) (moves : ℕ → List Move) (ss : List TokioTcpServer)
    → AreOpen ss
    → AreLate protocol moves ss (start_all (close_servers ss))
unfolding close_servers start_all move_all move
start-close_servers protocol moves [] open_ = tt
start-close_servers protocol moves (s ∷ ss) open_ = (
  close_server-Late protocol (starts ∷ moves 0) s open_.0,
  start-close_servers protocol (λ k. moves (suc k)) ss open_.1,
)

-- `_streams_close` and `_streams_abort` of a server whose listeners are all open are not about the streams alone:
-- even if `_start_serving` is called after them, and whatever else happens to each listener (to the first
-- `moves 0`, and so on), it stays closed and gets at most one more transport for each of its tasks that
-- was in `accept`. All the transports that it had are closing. Yet `_is_serving` answers after
-- `_streams_abort` what it did before.
pub streams_abort-AreLate :
    (protocol : Protocol) (moves : ℕ → List Move) (s : TokioServer)
    → AreOpen s.servers
    → AreLate protocol moves s.servers (start_serving (streams_abort s)).servers
      × AreLate protocol moves s.servers (start_serving (streams_close s)).servers
      × (is_serving (streams_abort s) ≡ is_serving s)
unfolding streams_abort streams_close start_serving is_serving
streams_abort-AreLate protocol moves s open_ =
    let late = start-close_servers protocol moves s.servers open_ in (late, late, refl)
