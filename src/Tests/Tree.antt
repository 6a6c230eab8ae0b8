-- ===== src/Tests/Tree.antt =====
-- The reduction tree of `CcuSmallStagingTreeKernel` on three ranks.
use hccl_reduce_scatter.Prelude.{◌++◌, low_mask16, refl, ◌≡◌, true, [], ◌∷◌, arith, length}
use mathlib.Core.List.{Perm, List}
use hccl_reduce_scatter.Ccu.{event_wait, bits, Address, Inputs, fp32, sum}
use hccl_reduce_scatter.Kernel.Args.{CcuPartialReduceKernelArg}
use hccl_reduce_scatter.Kernel.Tree.{tree_leaves, tree_fetch, tree_round}
use hccl_reduce_scatter.Kernel.Tree.Laws.{sources, reduction_calls, tree_rounds-consume}
use hccl_reduce_scatter.Kernel.Tree.Waits.{pending, tree_waits-settle}
use hccl_reduce_scatter.Tests.Bench.{inputs}

abbrev three_sources : CcuPartialReduceKernelArg
three_sources = record {
  base = record { channels = 1 ∷ 2 ∷ []; channel_count = 2 };
  source_count = 3;
  stripe_count = 0;
  local_source_index = 1;
  include_local_source = true;
  data_type = fp32;
  reduce_op = sum;
}

abbrev tree_task : Inputs
tree_task = inputs (1000 ∷ 7 ∷ 10 ∷ 7 ∷ 9 ∷ 0 ∷ 8 ∷ 2000 ∷ 2008 ∷ 2016 ∷ []) 20

tree_rounds-consume_example :
    (length (tree_leaves three_sources tree_task 3 0) ≡ 3)
    × ((first : Address) × (others : List Address) × (tree_leaves three_sources tree_task 3 0
          ≡ first ∷ others)
        × Perm (sources (reduction_calls three_sources tree_task)) others)
tree_rounds-consume_example = tree_rounds-consume three_sources tree_task (omega arith)

tree_waits-settle_example :
    (pending
        (tree_fetch three_sources tree_task 3 0 0 ++ (event_wait 0 (bits (low_mask16 2)) ∷ []))
        []
      ≡ [])
    × (pending (tree_round (tree_leaves three_sources tree_task 3 0) 8 fp32 sum 1 3) [] ≡ [])
tree_waits-settle_example =
    tree_waits-settle three_sources tree_task (tree_leaves three_sources tree_task 3 0) 3
      (omega arith) refl (omega arith) (omega arith)
