-- ===== src/Examples/Reading.antt =====
-- The theorems on the read handle of src/tcp.rs, at concrete worlds.
use tokioloop.Base.{ℕ, false, ◌≡◌, refl, some, arith, List, [], ◌∷◌}
use tokioloop.World.{World, Returns, ok, set_tcp}
use tokioloop.EventLoop.Signals.{ReadResult, read_bytes, read_interrupted, read_failed}
use tokioloop.Tcp.New.{new}
use tokioloop.Tcp.ReadHandle.{Round}
use tokioloop.Tcp.ReadHandle.Closing.{Delivered, run-Delivered}
use tokioloop.Tcp.ReadHandle.Run.{run}
use tokioloop.Tcp.ReadHandle.Session.{IsPassive, Session, ends, goes}
use tokioloop.Tcp.ReadHandle.Unseen.{run-end_unseen}
use tokioloop.Examples.Sample.{sample}
use tokioloop.Examples.Transports.{connected}

abbrev round_of : List ReadResult → Round
round_of answers = record {
  answers = answers;
  room = 16;
  reads = 1;
  conn_made = some 1;
  cell = 4;
  py_none = 0;
}

-- Three bytes in two reads, then one byte and the end.
abbrev front_first : List ReadResult
front_first = read_bytes (1 ∷ 2 ∷ []) ∷ read_interrupted ∷ read_bytes (3 ∷ []) ∷ []

abbrev front_last : List ReadResult
front_last = read_bytes (4 ∷ []) ∷ []

abbrev first_round : Round
first_round =
    round_of (read_bytes (1 ∷ 2 ∷ []) ∷ read_interrupted ∷ read_bytes (3 ∷ []) ∷ read_failed ∷ [])

abbrev last_round : Round
last_round = round_of (read_bytes (4 ∷ []) ∷ read_bytes [] ∷ [])

-- The protocol keeps the data to itself.
abbrev keeps : ℕ → List ℕ → World sample → World sample
keeps r bytes w = w

keeps-IsPassive : IsPassive sample keeps
keeps-IsPassive = record {
  tcp = λ r b w. refl;
  transports = λ r b w. refl;
  handles = λ r b w. refl;
  trace = λ r b w. refl;
}

sends_four : Session (first_round ∷ last_round ∷ []) (1 ∷ 2 ∷ 3 ∷ 4 ∷ [])
sends_four =
    goes first_round front_first [] (last_round ∷ []) (4 ∷ []) refl (tt, (tt, (tt, tt)))
      (omega arith) (omega arith) (ends last_round front_last [] [] refl (tt, tt) (omega arith))

run-Delivered_example :
    Returns
      (run sample keeps 5 0 false (first_round ∷ last_round ∷ []) connected)
      (Delivered sample keeps 5 5 (1 ∷ 2 ∷ 3 ∷ 4 ∷ []) connected)
unfolding new
run-Delivered_example =
    run-Delivered sample keeps 5 5 0 (first_round ∷ last_round ∷ []) (1 ∷ 2 ∷ 3 ∷ 4 ∷ []) connected
      keeps-IsPassive sends_four refl refl refl refl refl refl refl refl

-- Transport 5 has TLS.
abbrev encrypted : World sample
unfolding new
encrypted = set_tcp sample 5 (record (connected.tcp 5) { tls_conn = some 1 }) connected

run-end_unseen_example :
    run sample keeps 5 0 false (round_of (read_bytes [] ∷ read_bytes [] ∷ []) ∷ []) encrypted
    ≡ ok encrypted
unfolding new encrypted
run-end_unseen_example =
    run-end_unseen sample keeps 5 5 0 false 1 (round_of (read_bytes [] ∷ read_bytes [] ∷ [])) [] []
      encrypted refl refl refl refl refl refl
