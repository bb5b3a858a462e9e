-- ===== src/Examples/Transports.antt =====
-- The theorems on the transports of src/tcp.rs and src/udp.rs, at concrete worlds.
use tokioloop.Base.{ℕ, true, false, ◌≡◌, refl, none, some, arith, [], ◌∷◌, ◌==◌, if◌then◌else◌}
use tokioloop.Deps.{readable}
use tokioloop.World.{
  World, TcpTransport, tcp_stream, udp_socket, Returns, panic, already_borrowed, set_tcp,
}
use tokioloop.Tcp.New.{new}
use tokioloop.Tcp.Close.{close}
use tokioloop.Tcp.Close.Lost.{Closed, close-Closed}
use tokioloop.Tcp.Write.Failing.{try_write-panic}
use tokioloop.Tcp.Write.{write_failed, wrote, write_interrupted, try_write}
use tokioloop.Tcp.Write.Account.{Accepts}
use tokioloop.Tcp.Write.Stream.{try_write-Accepts}
use tokioloop.Tcp.Write.{pause_reading, resume_reading}
use tokioloop.Tcp.Reading.{Switched, resume-pause}
use tokioloop.Tcp.WriteHandle
use tokioloop.Tcp.WriteHandle.Bytes.{Written, write-Written}
use tokioloop.Udp.Transport
use tokioloop.Udp.Transport.Closing
use tokioloop.Udp.Transport.Closing.{close-Ends}
use tokioloop.Examples.Sample.{sample, fresh}

-- Transport 5 is a stream that is read, 6 a datagram socket that is read.
abbrev pub connected : World sample
connected = record fresh {
  handles_io = λ (j : ℕ).
      if j == 5
      then some (tcp_stream readable)
      else if j == 6
      then some (udp_socket readable)
      else none;
  tcp_transports = λ (j : ℕ). if j == 5 then some 5 else none;
  udp_transports = λ (j : ℕ). if j == 6 then some 6 else none;
}

try_write-Accepts_example :
    Returns
      (try_write sample 5 0 (1 ∷ 2 ∷ 3 ∷ []) (wrote 2) connected)
      (Accepts sample 5 (1 ∷ 2 ∷ 3 ∷ []) connected)
unfolding new
try_write-Accepts_example =
    try_write-Accepts sample 5 0 (1 ∷ 2 ∷ 3 ∷ []) (wrote 2) connected refl refl refl refl refl refl
      (λ h. absurd (omega arith)) (omega arith)

-- Five bytes are buffered in two chunks.
abbrev pub backlog : TcpTransport sample
backlog = record (new sample 5 none false none) {
  write_buf = (1 ∷ 2 ∷ []) ∷ (3 ∷ 4 ∷ 5 ∷ []) ∷ [];
  write_buf_dsize = 5;
}

write-Written_example :
    Returns
      (WriteHandle.write sample 5
        (wrote 2 ∷ write_interrupted ∷ wrote 1 ∷ [])
        (set_tcp sample 5 backlog connected))
      (Written sample 5 (set_tcp sample 5 backlog connected))
unfolding new
write-Written_example =
    write-Written sample 5 (wrote 2 ∷ write_interrupted ∷ wrote 1 ∷ [])
      (set_tcp sample 5 backlog connected) refl refl (omega arith)

close-Closed_example : Returns (close sample 5 0 connected) (Closed sample 5 connected)
unfolding new
close-Closed_example = close-Closed sample 5 0 connected refl refl refl refl refl refl

close-Ends_example :
    Returns (Transport.close sample 6 connected) (Closing.Closed sample 6 connected)
unfolding Transport.new
close-Ends_example = close-Ends sample 6 connected refl refl refl refl

try_write-panic_example :
    try_write sample 5 0 (1 ∷ 2 ∷ []) write_failed connected ≡ panic already_borrowed
unfolding new
try_write-panic_example =
    try_write-panic sample 5 0 1 (2 ∷ []) connected refl refl refl refl refl refl refl

resume-pause_example : Returns (pause_reading sample 5 connected) (λ w1.
    Switched sample 5 false connected w1
    × Returns (resume_reading sample 5 w1) (Switched sample 5 true connected))
unfolding new
resume-pause_example = resume-pause sample 5 connected refl refl refl
