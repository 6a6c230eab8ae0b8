-- ===== src/Host.antt =====
-- The host side: what op_host/reduce_scatter.cc and op_host/exec_op.cc decide and launch.
pub mod Types
pub mod Exec
pub mod Register
pub mod Select
pub mod Sdk
pub mod Resources
pub mod Entry
