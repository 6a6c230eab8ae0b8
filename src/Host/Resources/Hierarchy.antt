-- ===== src/Host/Resources/Hierarchy.antt =====
-- `RegisterHierarchicalKernels`: the local and the cross kernel of the hierarchical algorithms.
pub mod Laws
use hccl_reduce_scatter.Prelude.{
  ℕ, Bool, Option, none, some, List, [], ◌∷◌, ◌==◌, if◌then◌else◌, length, get_or,
}
use hccl_reduce_scatter.Status.{hccl_e_internal}
use hccl_reduce_scatter.Kernel.Args.{CcuLocalReduceKernelArg, CcuCrossReduceKernelArg}
use hccl_reduce_scatter.Host.Register.{channel_base}
use hccl_reduce_scatter.Host.Sdk.{local_kernel, cross_kernel, Act, ◌>>=◌, ◌>>◌, stop}
use hccl_reduce_scatter.Host.Types.{hierarchical, hierarchical_staging, OpParam, AlgResourceCtx}
use hccl_reduce_scatter.Host.Resources.Channels.{acquire_channels_at_layer, other_ranks}
use hccl_reduce_scatter.Host.Resources.Groups.{index_of}
use hccl_reduce_scatter.Host.Resources.Kernels.{register_kernels}

abbrev pub local_reduce_kernel_arg :
    Bool → OpParam → AlgResourceCtx → List ℕ → CcuLocalReduceKernelArg
local_reduce_kernel_arg use_staging param ctx channels = record {
  base = channel_base channels;
  group_size = length ctx.local_ranks;
  group_rank_id = index_of param.my_rank ctx.local_ranks;
  target_count = length ctx.target_ranks;
  use_staging = use_staging;
  data_type = param.data_type;
  reduce_op = param.reduce_type;
}

-- The channel of a target that is sent: the place of its rank among the cross peers.
abbrev pub send_channel : AlgResourceCtx → ℕ → ℕ
send_channel ctx target = index_of (get_or ctx.target_ranks target 0) ctx.cross_peers

-- The loop that fills `sendChannelIndices`, which fails where a target has no channel.
unfoldable pub send_channels : AlgResourceCtx → List ℕ → Option (List ℕ)
send_channels ctx [] = some []
send_channels ctx (target ∷ targets) =
    let rest = send_channels ctx targets in
    if send_channel ctx target == length ctx.cross_peers
    then none
    else elim rest [ none ↦ none | some channels ↦ some (send_channel ctx target ∷ channels) ]

abbrev pub cross_reduce_kernel_arg :
    OpParam → AlgResourceCtx → List ℕ → List ℕ → CcuCrossReduceKernelArg
cross_reduce_kernel_arg param ctx channels indices = record {
  base = channel_base channels;
  send_count = length ctx.cross_send_target_indices;
  send_channel_indices = indices;
  data_type = param.data_type;
  reduce_op = param.reduce_type;
}

-- The registration, with the channels of both groups and of the targets.
abbrev pub register_pair :
    Bool → OpParam → AlgResourceCtx → List ℕ → List ℕ → Option (List ℕ) → Act AlgResourceCtx
register_pair use_staging param ctx local_channels cross_channels none =
    λ api h. (stop hccl_e_internal, h)
register_pair use_staging param ctx local_channels cross_channels (some indices) =
    register_kernels (if use_staging then hierarchical_staging else hierarchical)
      (local_kernel (local_reduce_kernel_arg use_staging param ctx local_channels)
        ∷ cross_kernel (cross_reduce_kernel_arg param ctx cross_channels indices)
        ∷ [])
      ctx

unfoldable pub register_hierarchical_kernels : Bool → OpParam → AlgResourceCtx → Act AlgResourceCtx
register_hierarchical_kernels use_staging param ctx = do
  local_channels ←
      acquire_channels_at_layer param.my_rank 0 (other_ranks param.my_rank ctx.local_ranks)
  cross_channels ← acquire_channels_at_layer param.my_rank 1 ctx.cross_peers
  register_pair use_staging param ctx local_channels cross_channels
      (send_channels ctx ctx.cross_send_target_indices)
