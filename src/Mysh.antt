-- ===== src/Mysh.antt =====
-- mysh/shell: a command line for small devices, with its line editor.
pub mod Text
pub mod Editor
pub mod Complete
pub mod Input
pub mod Parse
pub mod Shell
pub mod Vfat
pub mod Command
pub mod Execute
mod Tests
