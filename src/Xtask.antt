-- ===== src/Xtask.antt =====
-- The crate xtask: the tool on the host that builds the stages, writes them to the board and starts it.
pub mod Result
pub mod World
pub mod Xfel
pub mod Make
pub mod Image
pub mod Spinand
pub mod Debug
pub mod Asm
pub mod Main
