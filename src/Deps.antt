-- ===== src/Deps.antt =====
-- The crates that the loops call, as one parameter of the model, and a sample of it that runs.
pub mod Papaya
pub mod Mio
pub mod Rustls
pub mod Channel
pub use Papaya.{Removal, absent, removed, kept, removal, retained, updated, upserted}
pub use Mio.{
  Interest, readable, writable, both, is_readable, is_writable, same_interest, reads, writes,
  RegistryCall, register, reregister, deregister,
}
pub use Rustls.{PacketResult, tls_error, io_state}

pub record Deps : Type 1 where
  pub papaya : Papaya.Papaya
  pub open papaya use *
  pub mio : Mio.Mio
  pub open mio use *
  pub rustls : Rustls.Rustls
  pub open rustls use *

-- The crates that the second loop calls.
pub record TokioDeps : Type 1 where
  pub papaya : Papaya.Papaya
  pub open papaya use *
  pub async_channel : Channel.Channel
  pub mpsc : Channel.Channel
