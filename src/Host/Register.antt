-- ===== src/Host/Register.antt =====
-- The arguments that op_host/reduce_scatter.cc gives to the kernels when it registers them, from
-- the parameters of the collective and the channels that it has acquired.
use hccl_reduce_scatter.Prelude.{ℕ, Bool, true, List, [], length, min}
use hccl_reduce_scatter.Kernel.Args.{
  CcuKernelArgBase, CcuReduceScatterKernelArg, CcuPartialReduceKernelArg,
  CcuTiledPartialReduceKernelArg, CcuMergePartialKernelArg, max_single_die_stripes,
}
use hccl_reduce_scatter.Host.Types.{OpParam}

-- `channelCount` and `channels`.
abbrev pub channel_base : List ℕ → CcuKernelArgBase
channel_base channels = record { channels = channels; channel_count = length channels }

abbrev pub make_partial_kernel_arg : OpParam → List ℕ → ℕ → ℕ → Bool → ℕ → CcuPartialReduceKernelArg
make_partial_kernel_arg param channels source_count stripe_count include_local_source
      local_source_index =
    record {
      base = channel_base channels;
      source_count = source_count;
      stripe_count = stripe_count;
      local_source_index = local_source_index;
      include_local_source = include_local_source;
      data_type = param.data_type;
      reduce_op = param.reduce_type;
    }

abbrev pub make_tiled_partial_kernel_arg :
    OpParam → List ℕ → ℕ → Bool → ℕ → CcuTiledPartialReduceKernelArg
make_tiled_partial_kernel_arg param channels source_count include_local_source local_source_index =
    record {
      base = channel_base channels;
      source_count = source_count;
      local_source_index = local_source_index;
      include_local_source = include_local_source;
      data_type = param.data_type;
      reduce_op = param.reduce_type;
    }

abbrev pub mesh_kernel_arg : OpParam → List ℕ → CcuReduceScatterKernelArg
mesh_kernel_arg param channels = record {
  base = channel_base channels;
  rank_size = param.rank_size;
  rank_id = param.my_rank;
  data_type = param.data_type;
  reduce_op = param.reduce_type;
}

abbrev pub striped_kernel_arg : OpParam → List ℕ → CcuPartialReduceKernelArg
striped_kernel_arg param channels =
    make_partial_kernel_arg param channels param.rank_size
      (min param.rank_size max_single_die_stripes) true param.my_rank

abbrev pub small_tree_kernel_arg : OpParam → List ℕ → CcuPartialReduceKernelArg
small_tree_kernel_arg param channels =
    make_partial_kernel_arg param channels param.rank_size 1 true param.my_rank

abbrev pub small_clos_kernel_arg : OpParam → List ℕ → CcuTiledPartialReduceKernelArg
small_clos_kernel_arg param channels =
    make_tiled_partial_kernel_arg param channels param.rank_size true param.my_rank

abbrev pub merge_kernel_arg : OpParam → CcuMergePartialKernelArg
merge_kernel_arg param = record {
  base = channel_base [];
  data_type = param.data_type;
  reduce_op = param.reduce_type;
}
