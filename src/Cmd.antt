-- ===== src/Cmd.antt =====
-- cmd: the two main programs.
pub mod Server
pub mod Api
pub mod Life
