-- ===== src/Kernel.antt =====
-- The kernel (src/kernel).
pub mod Memory
pub mod Process
pub mod System
pub mod Exec
pub mod Files
pub mod Paths
pub mod Console
