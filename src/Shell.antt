-- ===== src/Shell.antt =====
-- src/fs/shell.c: the command line, the words of a command, and the commands.
pub mod Line
pub mod Words
pub mod Entries
pub mod Files
pub mod Commands
pub mod Dispatch
mod Tests
