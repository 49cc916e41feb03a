-- ===== src/SimpleDb.antt =====
-- simpledb: a table of rows in a B-tree of 4 KiB pages, with a command line in front.
pub mod Exit
pub mod Row
pub mod Node
pub mod Pager
pub mod Search
pub mod Leaf
pub mod Tree
pub mod Table
pub mod Statement
pub mod Meta
pub mod Main
mod Tests
