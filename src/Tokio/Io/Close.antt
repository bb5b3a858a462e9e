-- ===== src/Tokio/Io/Close.antt =====
-- `close` of src/tokio_tcp.rs while `io_processing_loop` runs.
use tokioloop.Base.{◌++◌, true, false, List, [], ◌∷◌, ◌≡◌, refl, arith}
use tokioloop.Tokio.Transport.{TokioTcpTransport, close}
use tokioloop.Tokio.Io.{connection_lost, Selected, Io, Protocol, call, round, ended, run_io}

module _ (protocol : Protocol) where
  -- A round on a transport that is closing ends the loop.
  run_io-closing :
      (s : Selected) (ss : List Selected) (io : Io)
      → io.transport.state_closing ≡ true
      → run_io protocol (s ∷ ss) io ≡ ended (call protocol connection_lost io)
  unfolding run_io round
  run_io-closing s ss io h = ground arith

  close-state_closing : (t : TokioTcpTransport) → t.closing ≡ false → (close t).state_closing ≡ true
  unfolding close
  close-state_closing t h = ground arith

  -- `close` on an open transport that the loop runs: in the next round, whatever could complete in it, the
  -- loop ends with one call of `connection_lost`; it has sent nothing more, whatever is buffered.
  pub run_io-close :
      (s : Selected) (ss : List Selected) (io : Io)
      → io.transport.closing ≡ false
      → let closed : Io = record io { transport = close io.transport } in
        (io1 : Io) × (run_io protocol (s ∷ ss) closed ≡ ended io1)
        × (io1.sent ≡ io.sent)
        × (io1.calls ≡ io.calls ++ (connection_lost ∷ []))
  unfolding call
  run_io-close s ss io open_ =
      let closed : Io = record io { transport = close io.transport } in
      (
        call protocol connection_lost closed,
        run_io-closing s ss closed (close-state_closing io.transport open_),
        refl,
        refl,
      )
