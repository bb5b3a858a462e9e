-- ===== src/EventLoop.antt =====
-- src/event_loop.rs, by parts.
pub mod Watch
pub mod Streams
pub mod Sockets
pub mod Readers
pub mod Schedule
pub mod Timers
pub mod Listeners
pub mod Signals
pub mod Step
pub mod Wakeup
