-- ===== src/Tools.antt =====
-- projects/tools: the command line tools of the shell.
pub mod Battery
pub mod Shelf
pub mod Ports
