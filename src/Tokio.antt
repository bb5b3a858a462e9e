-- ===== src/Tokio.antt =====
-- The second loop, on the tokio runtime: src/tokio_handles.rs, src/tokio_event_loop.rs,
-- src/tokio_tcp.rs and the tokio server of src/server.rs.
pub mod Handle
pub mod Loop
pub mod Watch
pub mod Signals
pub mod Run
pub mod Transport
pub mod Io
pub mod Server
