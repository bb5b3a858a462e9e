-- ===== src/Examples/Writing.antt =====
-- The theorems on the write handle of src/tcp.rs, at concrete worlds.
use tokioloop.Base.{ℕ, true, false, ◌≡◌, refl, Option, none, some, arith, List, [], ◌∷◌}
use tokioloop.Deps.{writes}
use tokioloop.EventLoop.Watch.{watched}
use tokioloop.World.{World, TcpTransport, Returns, Result, ok, panic, starved, set_tcp}
use tokioloop.Tcp.New.{new}
use tokioloop.Tcp.Write.{WriteResult, wrote, write_interrupted}
use tokioloop.World.{◌>>=◌}
use tokioloop.Tcp.Close.{close}
use tokioloop.Tcp.WriteHandle.Graceful.{close-Finished}
use tokioloop.Tcp.WriteHandle.Frame.{losses}
use tokioloop.Tcp.WriteHandle.Finish.{Finished, run-Finished}
use tokioloop.Tcp.WriteHandle.Open.{Pumped, run-Pumped}
use tokioloop.Tcp.WriteHandle.Pending.{run-untold}
use tokioloop.Tcp.WriteHandle.Run.{run}
use tokioloop.Tcp.WriteHandle.Timeout.{Forced, run-overdue}
use tokioloop.Tcp.WriteHandle.Tls.{write_with_tls}
use tokioloop.Examples.Sample.{sample}
use tokioloop.Examples.Transports.{connected, backlog}

-- Transport 5 is in the state `t`.
abbrev having : TcpTransport sample → World sample
having t = set_tcp sample 5 t connected

abbrev ending : TcpTransport sample
ending = record backlog { closing = true }

abbrev in_two : List WriteResult
in_two = wrote 2 ∷ write_interrupted ∷ wrote 3 ∷ []

run-Finished_example :
    Returns (run sample 5 0 in_two (having ending)) (Finished sample 5 5 (having ending))
unfolding new
run-Finished_example =
    run-Finished sample 5 5 0 in_two (having ending) refl refl refl refl refl refl refl
      (refl, (refl, tt))

abbrev partly : List WriteResult
partly = wrote 2 ∷ write_interrupted ∷ wrote 1 ∷ []

run-Pumped_example :
    Returns (run sample 5 0 partly (having backlog)) (Pumped sample 5 5 partly (having backlog))
unfolding new
run-Pumped_example =
    run-Pumped sample 5 5 0 partly (having backlog) refl refl refl refl refl refl refl (omega arith)

-- The close alert was sent at 10, and the peer has 30 milliseconds.
abbrev unanswered : TcpTransport sample
unanswered = record ending {
  tls_conn = some 1;
  tls_close_sent = true;
  tls_close_sent_time = some 10;
  ssl_close_timeout = 30;
}

run-overdue_example :
    Returns (run sample 5 40000 in_two (having unanswered)) (Forced sample 5 5 (having unanswered))
unfolding new
run-overdue_example =
    run-overdue sample 5 5 40000 10 1 in_two (having unanswered) refl refl refl refl refl refl refl
      (omega arith) refl

-- The close alert waits for the buffer.
abbrev alerting : TcpTransport sample
alerting = record ending { tls_conn = some 1; handshake_complete = true; tls_pending_close = true }

abbrev world_of : Result (Option ℕ × World sample) → World sample
world_of (ok (_, w)) = w
world_of (panic _) = connected
world_of starved = connected

abbrev records_taken : List WriteResult
records_taken = wrote 1 ∷ wrote 1 ∷ []

abbrev encrypted : World sample
unfolding write_with_tls new
encrypted = world_of (write_with_tls sample 5 1 records_taken (having alerting))

run-untold_example : Returns (run sample 5 0 records_taken (having alerting)) (λ w'.
    (losses 5 w'.trace ≡ losses 5 (having alerting).trace)
    × (w'.tcp_transports 5 ≡ none)
    × (writes (watched sample 5 w') ≡ false))
unfolding write_with_tls new encrypted
run-untold_example =
    run-untold sample 5 5 0 5 1 records_taken (having alerting) encrypted refl refl refl refl refl
      refl refl refl refl

close-Finished_example :
    Returns
      (close sample 5 0 (having backlog) >>= run sample 5 1 in_two)
      (Finished sample 5 5 (having backlog))
unfolding new
close-Finished_example =
    close-Finished sample 5 0 1 in_two (having backlog) refl refl refl refl refl (omega arith) refl
      (refl, (refl, tt))
