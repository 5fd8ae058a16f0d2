-- ===== src/Shell.antt =====
-- The shell of apps/shell.c.
pub mod Words
