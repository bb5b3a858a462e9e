-- ===== src/Examples.antt =====
-- Runs of src/event_loop.rs, src/tcp.rs, src/udp.rs, src/server.rs, src/tokio_event_loop.rs and
-- src/tokio_tcp.rs on concrete states.
mod Sample
mod Watching
mod Loop
mod Transports
mod Writing
mod Reading
mod Serving
mod Channels
mod TokioLoop
mod TokioIo
mod TokioServer
