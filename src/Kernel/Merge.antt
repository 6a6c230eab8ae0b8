-- ===== src/Kernel/Merge.antt =====
-- `CcuMergePartialKernel`: the partial of the other die is reduced into the output.
pub mod Result
use hccl_reduce_scatter.Prelude.{Option, none, some, List, [], ◌++◌}
use hccl_reduce_scatter.Status.{CcuResult, ccu_e_para}
use hccl_reduce_scatter.Ccu.{Address, Transfer, local_reduce, Call, Inputs}
use hccl_reduce_scatter.Kernel.Args.{CcuMergePartialKernelArg}
use hccl_reduce_scatter.Kernel.Common.{run_calls, load_args, synchronous}

module _ (k : CcuMergePartialKernelArg) (i : Inputs) where
  abbrev pub merge_output : Address
  merge_output = record { addr = i.task_arg 0; token = i.task_arg 1 }

  abbrev pub cross_partial : Address
  cross_partial = record { addr = i.task_arg 2; token = i.task_arg 3 }

  abbrev pub merge_transfer : Transfer
  merge_transfer = local_reduce merge_output cross_partial (i.task_arg 4) k.data_type k.reduce_op

  pub merge_calls : List Call
  merge_calls = load_args 5 ++ synchronous 0 merge_transfer []

pub ccu_merge_partial_kernel :
    (List Call → Call → CcuResult)
    → Option CcuMergePartialKernelArg
    → Inputs
    → CcuResult × List Call
ccu_merge_partial_kernel reply none i = (ccu_e_para, [])
ccu_merge_partial_kernel reply (some k) i = run_calls reply (merge_calls k i)
