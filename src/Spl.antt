-- ===== src/Spl.antt =====
-- The crate spl: the first stage, which loads the others from flash.
pub mod Flash
pub mod Logging
pub mod Setup
pub mod Boot
pub mod Head
