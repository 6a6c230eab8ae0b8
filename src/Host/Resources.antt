-- ===== src/Host/Resources.antt =====
-- The resources of a communicator (op_host/reduce_scatter.cc): channels, groups of ranks and
-- registered kernels.
pub mod Channels
pub mod Groups
pub mod Kernels
pub mod Hierarchy
