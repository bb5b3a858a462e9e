-- ===== src/Udp/Accessors.antt =====
-- What Python reads off a datagram transport: is_closing, get_write_buffer_size and
-- get_write_buffer_limits of src/udp.rs; and set_protocol.
use tokioloop.Base.{ℕ, Bool}
use tokioloop.Deps.{Deps}
use tokioloop.World.{Result, ok, ◌>>=◌, World, UdpTransport}
use tokioloop.Tcp.Write.{Answer, not_implemented}
use tokioloop.Udp.Transport.{borrow_udp}

unfoldable pub is_closing : UdpTransport → Bool
is_closing t = t.closing

-- The low mark comes first.
unfoldable pub get_write_buffer_limits : UdpTransport → ℕ × ℕ
get_write_buffer_limits t = (t.water_lo, t.water_hi)

module _ (D : Deps) where
  unfoldable pub get_write_buffer_size : ℕ → World D → Result ℕ
  get_write_buffer_size r w = borrow_udp D r w >>= λ t. ok t.write_buf_dsize

  unfoldable pub set_protocol : ℕ → World D → Answer × World D
  set_protocol protocol w = (not_implemented, w)
