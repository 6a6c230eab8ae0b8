-- ===== src/Tests.antt =====
-- Runs of the model on concrete inputs.
pub mod Bench
pub mod Direct
pub mod Striped
pub mod Host
pub mod Stream
pub mod Collective
pub mod Entry
pub mod Hierarchy
pub mod Tree
pub mod TreeRuns
pub mod TiledRuns
pub mod ClosRuns
pub mod DualDieTask
pub mod DualDieRuns
pub mod Refines
