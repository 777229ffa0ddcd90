-- ===== src/Common.antt =====
-- The crate common: the data that the boot stages and the host tool hand to each other.
pub mod Bytes
pub mod Dtb
pub mod Memory
pub mod FlashMeta
pub mod Payload
pub mod Arrow
