-- ===== src/Network/Tests.antt =====
-- A concrete encoding, application, socket and queue of deadlines, and the theorems about the
-- network at them.
pub mod Alarms
pub mod Codec
pub mod Sessions
