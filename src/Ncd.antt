-- ===== src/Ncd.antt =====
-- The file manager of apps/ncd.
pub mod Panel
pub mod Manager
