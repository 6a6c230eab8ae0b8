-- ===== src/Collective.antt =====
-- Host and device together: what the launches of `ExecOp` compute on the ranks' memories.
pub mod Slots
pub mod Joined
pub mod Spec
pub mod Runs
pub mod Direct
pub mod Striped
pub mod Clos
pub mod DualDie
pub mod Tree
pub mod Refines
