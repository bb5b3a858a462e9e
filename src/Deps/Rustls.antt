-- ===== src/Deps/Rustls.antt =====
-- A TLS connection of the `rustls` crate (`TLSConnection` of src/tcp.rs), as an interface of the
-- calls that the transports make. Nothing is assumed of it.
use tokioloop.Base.{ℕ, Bool, Option, List}

-- What `process_new_packets` answers: an error, or whether the peer has closed.
pub data PacketResult : Type 0 where
  tls_error : PacketResult
  io_state : Bool → PacketResult

pub record Rustls : Type 1 where
  pub Conn : Type 0
  pub ServerConfig : Type 0
  pub ClientConfig : Type 0
  -- `ServerConnection::new`; `none` is an error.
  pub server_connection : ServerConfig → Option Conn
  -- `ServerName::try_from` of the host's number, then `ClientConnection::new`.
  pub client_connection : ClientConfig → ℕ → Option Conn
  pub wants_write : Conn → Bool
  pub is_handshaking : Conn → Bool
  pub send_close_notify : Conn → Conn
  -- The bytes for the socket; `none` is an error.
  pub write_tls : Conn → Option (List ℕ) × Conn
  -- How many of the raw bytes were taken; `none` is an error.
  pub read_tls : List ℕ → Conn → Option ℕ × Conn
  pub process_new_packets : Conn → PacketResult × Conn
  -- `reader().read`: the bytes decrypted, `none` for an error.
  pub reader_read : Conn → Option (List ℕ) × Conn
  -- `writer().write_all`: whether all was taken.
  pub writer_write_all : List ℕ → Conn → Bool × Conn
