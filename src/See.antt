-- ===== src/See.antt =====
-- The crate see: the machine-mode SBI environment.
pub mod Cpu
pub mod Switch
pub mod Riscv
pub mod Execute
pub mod Pmp
pub mod Board
pub mod Start
pub mod Extensions
