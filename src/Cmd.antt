-- ===== src/Cmd.antt =====
-- cmd/9pc: the interactive client.
pub mod Parse
pub mod Shell
pub mod Sorting
pub mod Commands
pub mod Main
mod Tests
