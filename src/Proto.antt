-- ===== src/Proto.antt =====
-- The protocol crate, `syfala_proto`.
pub mod Format
pub mod Message
pub mod Tests
