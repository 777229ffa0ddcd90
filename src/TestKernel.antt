-- ===== src/TestKernel.antt =====
-- The crate test-kernel: a kernel that tests the SEE.
pub mod Console
pub mod Main
