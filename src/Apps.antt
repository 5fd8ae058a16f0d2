-- ===== src/Apps.antt =====
-- The command line utilities (apps).
pub mod Sort
pub mod Tail
pub mod Cut
pub mod Grep
