-- ===== src/Kernel/LocalReduce.antt =====
-- `CcuLocalReduceKernel`: the ranks of a group reduce the chunks of several targets, either
-- straight from the peers or through two banks of staging slots.
pub mod Direct
pub mod Staged
use hccl_reduce_scatter.Prelude.{
  ℕ, ◌+◌, ◌*◌, ◌||◌, Bool, not, Option, none, some, List, [], ◌++◌, ltb, ◌==◌, if◌then◌else◌, sub32,
}
use hccl_reduce_scatter.Status.{CcuResult, ccu_e_para}
use hccl_reduce_scatter.Ccu.{Call, Inputs}
use hccl_reduce_scatter.Kernel.Args.{
  CcuLocalReduceKernelArg, max_local_rank_size, max_hierarchical_targets,
}
use hccl_reduce_scatter.Kernel.Common.{run_calls, exchange}
use Direct.{is_in_place, group_input, direct_group_calls}
use Staged.{staged_group_calls}

module _ (k : CcuLocalReduceKernelArg) (i : Inputs) where
  pub local_reduce_calls : List Call
  local_reduce_calls =
      exchange k.base (is_in_place k) (group_input i)
        ((if k.use_staging then 6 + 2 * k.group_size else 3) + 3 * k.target_count) k.group_size
      ++ (if k.use_staging then staged_group_calls k i else direct_group_calls k i)

abbrev pub local_reduce_refuses : CcuLocalReduceKernelArg → Bool
local_reduce_refuses k =
    ltb k.group_size 2
    || ltb max_local_rank_size k.group_size
    || not (k.base.channel_count == sub32 k.group_size 1)
    || k.target_count == 0
    || ltb max_hierarchical_targets k.target_count

pub ccu_local_reduce_kernel :
    (List Call → Call → CcuResult) → Option CcuLocalReduceKernelArg → Inputs → CcuResult × List Call
ccu_local_reduce_kernel reply none i = (ccu_e_para, [])
ccu_local_reduce_kernel reply (some k) i =
    if local_reduce_refuses k then (ccu_e_para, []) else run_calls reply (local_reduce_calls k i)
