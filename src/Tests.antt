-- ===== src/Tests.antt =====
-- Runs of the models on concrete inputs, and the theorems with hypotheses at inputs that meet them.
pub mod Sample
mod DiskRuns
mod TableRuns
mod FileRuns
mod EditorRuns
mod VfsRuns
mod MemoryRuns
mod PosixRuns
mod AppRuns
mod KernelRuns
mod CreateRun
mod LibcRuns
mod KeyboardRuns
mod EditRuns
mod ManagerRuns
