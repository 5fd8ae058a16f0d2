-- ===== src/Posix.antt =====
-- The C library of the applications (lib/posix).
pub mod Glob
pub mod Text
pub mod Number
pub mod Stdio
pub mod Args
pub mod Descriptors
pub mod Dirent
