-- ===== src/Udp.antt =====
-- src/udp.rs, by parts.
pub mod Transport
pub mod Handles
pub mod Accessors
