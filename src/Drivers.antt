-- ===== src/Drivers.antt =====
-- The device drivers below the file system: src/drivers/disk.c and src/drivers/keyboard.c.
pub mod Disk
pub mod Keyboard
