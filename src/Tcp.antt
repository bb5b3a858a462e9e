-- ===== src/Tcp.antt =====
-- src/tcp.rs, by parts.
pub mod New
pub mod Reading
pub mod Accessors
pub mod Close
pub mod Write
pub mod WriteHandle
pub mod ReadHandle
