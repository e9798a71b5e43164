-- ===== src/Client.antt =====
-- client/: the 9P client.
pub mod Transport
pub mod Rpc
pub mod Fid
pub mod Connection
pub mod Wrapped
pub mod Paths
pub mod Simple
pub mod Tests
