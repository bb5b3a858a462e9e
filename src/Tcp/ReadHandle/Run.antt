-- ===== src/Tcp/ReadHandle/Run.antt =====
-- `Handle::run` of `TCPReadHandle` of src/tcp.rs.
use tokioloop.Base.{ℕ, if◌then◌else◌, Bool, false, ◌&&◌, not, Option, none, some, List, [], ◌∷◌}
use tokioloop.Deps.{Deps}
use tokioloop.World.{World, data_received, Result, ok, starved, emit, ◌>>=◌}
use tokioloop.Tcp.Close.{is_some, recv_eof, tcp_stream_close}
use tokioloop.Tcp.ReadHandle.{Round, recv}

-- `react` is what the protocol does when it is given data.
module _ (D : Deps) (react : ℕ → List ℕ → World D → World D) where
  open D use {get}

  abbrev pub deliver : ℕ → Option (List ℕ) → World D → World D
  deliver r none w = w
  deliver r (some bytes) w = react r bytes (emit D (data_received r bytes) w)

  -- The loop of `run`, one input for each round; the answer is whether the stream has ended.
  unfoldable pub read_rounds : ℕ → ℕ → List Round → World D → Result (Bool × World D)
  unfolding recv
  read_rounds fd r [] w = starved
  read_rounds fd r (round ∷ rounds) w = recv D fd r round w >>= λ ((bytes, eof), w1).
      let w2 = deliver r bytes w1 in
      let rest = read_rounds fd r rounds w2 in
      if is_some bytes && not eof then rest else ok (eof, w2)

  -- What `run` does after the loop.
  unfoldable pub end_read : ℕ → ℕ → ℕ → Bool → Bool × World D → Result (World D)
  unfolding recv_eof tcp_stream_close
  end_read fd r now keep_open (eof, w) = do
    (close, w1) ← if eof then recv_eof D r now keep_open w else ok (false, w)
    if close then tcp_stream_close D fd now w1 else ok w1

  unfoldable pub run_found : ℕ → ℕ → Bool → List Round → World D → Option ℕ → Result (World D)
  unfolding read_rounds end_read
  run_found fd now keep_open rounds w none = ok w
  run_found fd now keep_open rounds w (some r) =
      read_rounds fd r rounds w >>= end_read fd r now keep_open

  -- `run`. `keep_open` is whether `eof_received` answers true.
  unfoldable pub run : ℕ → ℕ → Bool → List Round → World D → Result (World D)
  unfolding run_found
  run fd now keep_open rounds w = run_found fd now keep_open rounds w (get fd w.tcp_transports)
