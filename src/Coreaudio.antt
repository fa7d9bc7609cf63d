-- ===== src/Coreaudio.antt =====
-- The macOS driver, `syfala_coreaudio/src/lib.rs`: a plug-in of CoreAudio with one device of
-- sixteen channels.
pub mod Objects
pub mod Status
pub mod Lifecycle
pub mod Io
pub mod Volume
pub mod Sys
pub mod State
pub mod Properties
pub mod Sessions
pub mod Tests
