-- ===== src/Hdk.antt =====
-- The development kit of lib/hdk that the programs with a user interface share.
pub mod Keys
pub mod Format
pub mod Dialog
