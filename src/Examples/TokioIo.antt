-- ===== src/Examples/TokioIo.antt =====
-- Runs of src/tokio_tcp.rs.
use tokioloop.Base.{true, false, ◌≡◌, refl, some, List, [], ◌∷◌, ◌++◌}
use tokioloop.Tokio.Transport.{
  TokioTcpTransport, TransportOp, writes, writes_eof, pauses, resumes, closes, aborts,
  fresh_transport, apply_all, close,
}
use tokioloop.Tokio.Transport.Agree.{IsAgreed, apply_all-IsAgreed}
use tokioloop.Tokio.Io.{
  ProtocolCall, connection_made, data_received, eof_received, connection_lost, read_bytes, in_write,
  in_flush, reads, sleeps, Io, Protocol, round, ended, run_io, unpolled, Selected,
}
use tokioloop.Tokio.Io.Bytes.{After, new_bytes, round-stream}
use tokioloop.Tokio.Io.Drop.{stream}
use tokioloop.Tokio.Io.Written.{AllKeep}
use tokioloop.Tokio.Io.Flush.{Runs, Flushed, IsOpen, write_rounds, run_io-Flushed}
use tokioloop.Tokio.Io.Hole.{Holed, sleeps-Holed}
use tokioloop.Tokio.Io.Finish.{Ended, Finished, IsEnding, run_io-Finishes}
use tokioloop.Tokio.Io.Told.{IsTold, EndsTold, run_io-Told}
use tokioloop.Tokio.Io.Close.{run_io-close}

abbrev fresh : TokioTcpTransport
fresh = fresh_transport 7 (some 1) (some 2) 60

abbrev operations : List TransportOp
operations = writes (some (1 ∷ [])) ∷ pauses ∷ writes_eof ∷ resumes ∷ closes ∷ aborts ∷ []

apply_all-IsAgreed_example :
    IsAgreed fresh
    × IsAgreed (apply_all operations fresh)
    × (IsAgreed fresh → IsAgreed (apply_all operations fresh))
apply_all-IsAgreed_example = apply_all-IsAgreed operations fresh 7 (some 1) (some 2) 60

-- Two chunks are to be written, and `write_eof` was called.
abbrev buffering : Io
buffering = record {
  transport =
      apply_all (writes (some (1 ∷ 2 ∷ 3 ∷ [])) ∷ writes (some (4 ∷ [])) ∷ writes_eof ∷ []) fresh;
  sent = [];
  shutdown = false;
  calls = connection_made ∷ [];
}

buffering-IsOpen : IsOpen buffering
unfolding apply_all fresh_transport
buffering-IsOpen = record { open_ = refl; reading = refl; no_eof = refl; not_shut = refl }

-- The protocol sends back what it receives, and closes at the end of the input.
abbrev echo : Protocol
echo (data_received bytes) io = writes (some bytes) ∷ []
echo eof_received io = closes ∷ []
echo _ io = []

echo-AllKeep : (c : ProtocolCall) (io : Io) → AllKeep (echo c io)
echo-AllKeep connection_made io = tt
echo-AllKeep (data_received bytes) io = (refl, tt)
echo-AllKeep eof_received io = (refl, tt)
echo-AllKeep connection_lost io = tt

-- Bytes come in while the loop has written the first chunk but not flushed it.
abbrev echoed : Selected
echoed = reads in_flush (read_bytes (8 ∷ 9 ∷ []))

round-stream_example :
    After
      (round echo echoed buffering)
      (λ u. stream u ≡ stream buffering ++ new_bytes echo echoed buffering)
unfolding apply_all fresh_transport
round-stream_example = round-stream echo echo-AllKeep echoed buffering refl

sleeps-Holed_example :
    Runs
      (run_io echo (sleeps (in_write 1) ∷ write_rounds 1) buffering)
      (Holed 1 (1 ∷ 2 ∷ 3 ∷ []) ((4 ∷ []) ∷ []) buffering)
unfolding apply_all fresh_transport
sleeps-Holed_example =
    sleeps-Holed echo 1 (1 ∷ 2 ∷ 3 ∷ []) (4 ∷ []) [] buffering buffering-IsOpen refl

-- Of its two chunks the first is sent.
run_io-Flushed_example :
    Runs
      (run_io echo (write_rounds 1) buffering)
      (Flushed ((1 ∷ 2 ∷ 3 ∷ []) ∷ []) ((4 ∷ []) ∷ []) buffering)
unfolding apply_all fresh_transport
run_io-Flushed_example =
    run_io-Flushed echo (1 ∷ 2 ∷ 3 ∷ []) [] ((4 ∷ []) ∷ []) buffering buffering-IsOpen refl

-- Bytes are read, then the end of the input.
abbrev rounds : List Selected
rounds = echoed ∷ reads unpolled (read_bytes []) ∷ sleeps unpolled ∷ []

buffering-IsTold : IsTold buffering
unfolding apply_all fresh_transport
buffering-IsTold = record { eof_once = refl; not_lost = refl }

run_io-Told_example : EndsTold echo (run_io echo rounds buffering)
run_io-Told_example = run_io-Told echo rounds buffering buffering-IsTold

-- The end of the input has been read, with both chunks still to be written.
abbrev at_end : Io
at_end = record buffering { transport = record buffering.transport { read_eof = true } }

at_end-IsEnding : IsEnding at_end
unfolding apply_all fresh_transport
at_end-IsEnding = record { open_ = refl; on = refl; eof = refl }

run_io-Finishes_example :
    Ended (run_io echo (write_rounds 2) at_end) (Finished ((1 ∷ 2 ∷ 3 ∷ []) ∷ (4 ∷ []) ∷ []) at_end)
unfolding apply_all fresh_transport
run_io-Finishes_example =
    run_io-Finishes echo (1 ∷ 2 ∷ 3 ∷ []) ((4 ∷ []) ∷ []) at_end at_end-IsEnding refl

run_io-close_example :
    let closed : Io = record buffering { transport = close buffering.transport } in
    (io1 : Io) × (run_io echo rounds closed ≡ ended io1)
    × (io1.sent ≡ buffering.sent)
    × (io1.calls ≡ buffering.calls ++ (connection_lost ∷ []))
unfolding apply_all fresh_transport
run_io-close_example =
    run_io-close echo echoed (reads unpolled (read_bytes []) ∷ sleeps unpolled ∷ []) buffering refl
