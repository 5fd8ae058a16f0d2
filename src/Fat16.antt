-- ===== src/Fat16.antt =====
-- The FAT16 driver, src/drivers/fat16.c.
pub mod Volume
pub mod Table
pub mod Dir
pub mod Iterate
pub mod File
pub mod Namespace
