-- ===== src/Jack.antt =====
-- The JACK client, `syfala_jack`.
pub mod Interleaver
pub mod Process
pub mod Tests
