-- ===== src/Hal.antt =====
-- The crate hal: the peripherals.
pub mod Ccu
pub mod Clint
pub mod Gpio
pub mod Plic
pub mod Spi
pub mod Spin
pub mod Time
pub mod Transfer
