-- ===== src/Kernel.antt =====
-- The kernels of op_kernel_ccu/ccu_kernel.cc, each as the list of the CCU calls that it makes.
pub mod Args
pub mod Common
pub mod Outcome
pub mod Direct
pub mod Striped
pub mod Tree
pub mod Tiled
pub mod Merge
pub mod Cross
pub mod LocalReduce
pub mod Staging
