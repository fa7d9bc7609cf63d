-- ===== src/Utils.antt =====
-- The utilities crate, `syfala_utils`.
pub mod Counter
pub mod Ring
pub mod Queue
pub mod Samples
pub mod Trait
pub mod Producer
pub mod Consumer
pub mod Tests
