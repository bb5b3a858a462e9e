-- ===== src/Examples/Watching.antt =====
-- The theorems on the interests that src/event_loop.rs watches, at concrete worlds.
use tokioloop.Base.{ℕ, true, false, ◌≡◌, refl, none, some, ◌==◌, if◌then◌else◌}
use tokioloop.Deps.{readable, writable, both, reads}
use tokioloop.Handle.{cb_handle}
use tokioloop.World.{World, PyHandleData, py, tcp_stream, udp_socket, Returns}
use tokioloop.EventLoop.Watch.{registered, watched, Takes}
use tokioloop.EventLoop.Streams.{tcp_stream_rem}
use tokioloop.EventLoop.Streams.Sync.{tcp_stream_rem-Takes}
use tokioloop.EventLoop.Readers.{add_reader}
use tokioloop.EventLoop.Readers.Valid.{reader_of, writer_of}
use tokioloop.EventLoop.Readers.Stale.{add_reader_stale}
use tokioloop.Examples.Sample.{sample, fresh}

-- Descriptor 5 is a stream that is read and written, 6 a datagram socket that is read.
abbrev streaming : World sample
streaming = record fresh {
  handles_io = λ (j : ℕ).
      if j == 5
      then some (tcp_stream both)
      else if j == 6
      then some (udp_socket readable)
      else none;
}

tcp_stream_rem-Takes_example :
    Returns (tcp_stream_rem sample 5 readable streaming) (Takes sample 5 readable streaming)
tcp_stream_rem-Takes_example = tcp_stream_rem-Takes sample 5 readable streaming refl (λ e. cc)

abbrev reading : PyHandleData
reading = record { interest = readable; cbr = some (cb_handle 1 0 0 9); cbw = none }

abbrev writing : PyHandleData
writing = record { interest = writable; cbr = none; cbw = some (cb_handle 2 0 0 8) }

abbrev reading_and_writing : PyHandleData
reading_and_writing = record {
  interest = both;
  cbr = some (cb_handle 1 0 0 9);
  cbw = some (cb_handle 2 0 0 8);
}

abbrev watching : PyHandleData → World sample
watching d = record fresh { handles_io = λ (j : ℕ). if j == 4 then some (py d) else none }

add_reader_stale_example : Returns (add_reader sample 4 1 2 3 7 (watching writing)) λ (h, w').
    (reader_of (w'.handles_io 4) ≡ some h)
    × (writer_of (w'.handles_io 4) ≡ some (cb_handle 2 0 0 8))
    × (reads (watched sample 4 w') ≡ true)
    × (reads (registered 4 w'.registry) ≡ false)
add_reader_stale_example =
    add_reader_stale sample 4 1 2 3 7 (watching writing) writing (cb_handle 2 0 0 8) refl refl refl
