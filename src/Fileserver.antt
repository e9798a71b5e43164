-- ===== src/Fileserver.antt =====
-- The package fileserver: fileserver.go and utils.go.
pub mod Path
pub mod SetStat
pub mod Walk
pub mod State
pub mod Wire
pub mod Fids
pub mod Files
pub mod Handlers
pub mod Dispatch
pub mod System
pub mod Serve
pub mod Respond
pub mod Faults
pub mod Effects
