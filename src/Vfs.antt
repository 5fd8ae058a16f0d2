-- ===== src/Vfs.antt =====
-- The virtual file system: src/fs/vfs.c and src/fs/mount.c.
pub mod Names
pub mod Path
pub mod Mount
pub mod Resolve
