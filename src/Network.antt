-- ===== src/Network.antt =====
-- The network crate, `syfala_network`.
pub mod Wire
pub mod Socket
pub mod Context
pub mod Deadlines
pub mod ServerMap
pub mod IoState
pub mod Expire
pub mod Poll
pub mod Server
pub mod Generic
pub mod Client
pub mod Tests
