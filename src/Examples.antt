-- ===== src/Examples.antt =====
-- The theorems at concrete inputs, with models of the hardware and of the crates that meet what is
-- asked of them.
pub mod Common
pub mod Controller
pub mod FlashBoot
pub mod Hal
pub mod Models
pub mod See
pub mod Setup
pub mod Start
pub mod TestKernel
pub mod Xtask
pub mod Head
pub mod Run
pub mod Boot
pub mod Chain
