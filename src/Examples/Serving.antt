-- ===== src/Examples/Serving.antt =====
-- The theorem on servers of src/server.rs and src/tcp.rs, at a concrete world.
use tokioloop.Base.{ℕ, true, refl, Option, none, some, List, [], ◌∷◌, ◌==◌, if◌then◌else◌}
use tokioloop.World.{World, tcp_listener, Returns}
use tokioloop.Server.{TcpServer, streams_of, close_listener}
use tokioloop.Server.Closing.{Shut, close_listener-Shut}
use tokioloop.Tcp.New.{new}
use tokioloop.Examples.Sample.{sample}
use tokioloop.Examples.Transports.{connected}

-- The listener 9 has accepted the stream 5, and the stream 7 that the loop has forgotten.
abbrev listening : World sample
listening = record connected {
  handles_io = λ (j : ℕ). if j == 9 then some (tcp_listener 9) else connected.handles_io j;
  tcp_lstreams =
      λ (j : ℕ). if j == 9 then some (λ (k : ℕ). if k == 5 then some tt else none) else none;
}

abbrev server : TcpServer sample
server = record { fd = 9; ref = 9; ssl_config = none }

abbrev in_order : (ℕ → Option (Unit {0})) → List ℕ
in_order set = 7 ∷ 5 ∷ []

close_listener-Shut_example :
    Returns
      (close_listener sample in_order server 0 true listening)
      (Shut sample 9 (streams_of sample in_order 9 listening) listening)
unfolding new streams_of
close_listener-Shut_example =
    close_listener-Shut sample in_order server 9 0 listening refl (tt, tt)
      (record { free = refl; plain = refl; here = refl; entry = refl }, tt)
