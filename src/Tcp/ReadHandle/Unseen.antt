-- ===== src/Tcp/ReadHandle/Unseen.antt =====
-- What the read handle of src/tcp.rs does not notice.
use tokioloop.Base.{ℕ, Bool, false, none, some, List, [], ◌∷◌, ◌≡◌, refl}
use tokioloop.Deps.{Deps}
use tokioloop.World.{World, ok}
use tokioloop.EventLoop.Signals.{ReadResult, read_bytes}
use tokioloop.Tcp.ReadHandle.{Round, read_into, recv, recv_direct, recv_tls, check_closed}
use tokioloop.Tcp.ReadHandle.Run.{read_rounds, end_read, run_found, run}

module _ (D : Deps) (react : ℕ → List ℕ → World D → World D) where
  open D use {get, Conn}

  recv-eof :
      (fd r : ℕ) (conn : Conn) (round : Round) (rest : List ReadResult) (w : World D)
      → (w.tcp r).borrowed ≡ false
      → (w.tcp r).proto_buffered ≡ false
      → (w.tcp r).tls_conn ≡ some conn
      → (w.tcp r).tls_close_sent ≡ false
      → round.answers ≡ read_bytes [] ∷ read_bytes [] ∷ rest
      → recv D fd r round w ≡ ok ((none, false), w)
  unfolding recv recv_direct recv_tls check_closed read_into
  recv-eof fd r conn round rest w free direct tls unsent e =
      simp (free, direct, tls, unsent, e) refl

  -- The read handle of a transport with TLS whose protocol is unbuffered, that is not borrowed and has
  -- sent no close alert, does nothing when the peer has closed the stream without an alert: the loop
  -- and the transport are as before, and the protocol is told nothing.
  pub run-end_unseen :
      (fd r now : ℕ) (keep_open : Bool) (conn : Conn) (round : Round) (rest : List ReadResult)
      (rounds : List Round) (w : World D)
      → get fd w.tcp_transports ≡ some r
      → (w.tcp r).borrowed ≡ false
      → (w.tcp r).proto_buffered ≡ false
      → (w.tcp r).tls_conn ≡ some conn
      → (w.tcp r).tls_close_sent ≡ false
      → round.answers ≡ read_bytes [] ∷ read_bytes [] ∷ rest
      → run D react fd now keep_open (round ∷ rounds) w ≡ ok w
  unfolding run run_found read_rounds end_read
  run-end_unseen fd r now keep_open conn round rest rounds w here free direct tls unsent e =
      rw here (rw (recv-eof fd r conn round rest w free direct tls unsent e) refl)
