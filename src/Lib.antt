-- ===== src/Lib.antt =====
-- A model of the custom reduce-scatter operator, with the theorems that make it correct.
--
-- The program has a host side and a device side. On the host, `HcclReduceScatter`
-- (op_host/reduce_scatter.cc) picks an algorithm, builds channels and kernels once, keeps them in
-- a serialized context, and `ExecOp` (op_host/exec_op.cc) computes the launch arguments of the
-- kernels. On the device, the kernels of op_kernel_ccu/ccu_kernel.cc exchange addresses with the
-- peers and move and reduce data by asynchronous transfers.
--
-- Parts and files:
--   Status: the codes and macros of include/log.h. Issue: calls issued until one fails.
--   Ccu: the CCU calls. Ccu/Device: what a CCU does with them: a transfer is in flight from its
--     call until it lands, in any order with others, and `EventWait` holds the kernel back.
--     Ccu/Race, Ccu/Program, Ccu/Disjoint, Ccu/Batch, Ccu/Overlap: programs whose concurrent
--     transfers commute, one batch after the other or beside each other.
--     Ccu/Race/Parallel: two kernels on two threads. Ccu/Race/Waits: waits that block.
--   Kernel/Args: the argument structs of include/custom.h. Kernel/Common: what the kernels share.
--     Kernel/Direct is `CcuKernel`, Kernel/Striped `CcuPartialReduceKernel`, Kernel/Tree
--     `CcuSmallStagingTreeKernel`, Kernel/Tiled `CcuTiledPartialReduceKernel`, Kernel/Merge
--     `CcuMergePartialKernel`, Kernel/Cross `CcuCrossReduceKernel`, Kernel/Staging
--     `CcuStagingKernel`, Kernel/LocalReduce `CcuLocalReduceKernel`.
--   Stream: `BinaryStream` (include/binary_stream.h). Stream/Context: the serialized
--     `AlgResourceCtx` (include/custom.h).
--   Host/Types: the structs of include/common.h and include/custom.h. Host/Exec: `ExecOp`, with a
--     child module for each algorithm.
--   Host/Select: the choice of the algorithm in `HcclReduceScatter` (op_host/reduce_scatter.cc).
--     Host/Sdk: the SDK calls of that file, and functions that make them. Host/Register: the
--     kernels' arguments. Host/Resources: channels, groups of ranks and registered kernels.
--     Host/Entry: `HcclReduceScatter` with the engine context that it keeps.
--   Collective: host and device together, for the striped, the direct, the small staging tree,
--     the small Clos and the two-die algorithm. Collective/Slots: the scratch slots as `ExecOp` lays them out.
--     Collective/Spec: what a reduce-scatter promises, the contributions of all ranks combined in
--     some order and grouping. Collective/Refines: the algorithms keep this promise.
--   Tests: runs on concrete inputs.
--
-- How the code is read:
--   A kernel is the list of the CCU calls that it makes: every call stands in
--   `CCU_RETURN_IF_ERROR`, and no call depends on the status of an earlier one. Device variables
--   stand for the values that they hold at run time, and `CCU_IF` and `CCU_WHILE` for the calls
--   performed for those values. `uint64_t` and `uint32_t` arithmetic wraps around where the code
--   can reach the bound. Pointers and handles are numbers.
--   The SDK is a parameter: `Device` for the CCU, with `IsLawful` for the documented effect of the
--   transfers, `Hcomm` for the calls of `ExecOp` and `Sdk` for those of `HcclReduceScatter`. A memory cell at an address is the element that begins
--   there, so a reduction acts on cells. The memory of the peers does not change while a kernel
--   runs.
--   `Run` over-approximates the device: a wait in it passes unless a transfer that it covers is in
--   flight, so what holds of every run holds of a device whose waits block. Whether a wait comes
--   to an end is a property of its own: `AllSignalled` (Ccu/Race/Waits) for `EventWait`, and
--   `AllNotified` (Kernel/Common/Notices) for `NotifyWait`, where the kernel at the other end of a
--   channel is the same program; `RunSignalled` is `Run` on a device whose waits block.
--   Loops are recursion on a count. The chunk loops of `ExecOp` run on fuel, `recvBytes / stride
--   + 1`, and the device loop over pairs of tiles on `UINT64_MAX - pairCount`, its own counter.
--
-- Not modelled: logging, and the overloads of `BinaryStream` that no context uses.
pub mod Prelude
pub mod Status
pub mod Issue
pub mod Ccu
pub mod Kernel
pub mod Stream
pub mod Host
pub mod Collective
pub mod Tests
